-- ===== src/Decimal/Radix/Laws.antt =====
-- What `decimal::from` makes of digits.
use vitex.Common.{ℕ, ◌+◌, ◌*◌, ◌≡◌, List, [], ◌∷◌}
use vitex.Decimal.Digits.Value.{number}
use vitex.Decimal.Number.{plus, Decimal}
use vitex.Decimal.Order.Laws.{above, below, IsNumber}
use vitex.Decimal.Radix.{mapping}

-- The number that digits spell in a base.
abbrev pub spelled : ℕ → ℕ → List ℕ → ℕ
spelled base n [] = n
spelled base n (c ∷ cs) = spelled base (n * base + mapping c) cs

-- A whole number that is positive.
pub record IsWhole (x : Decimal) (n : ℕ) : Type 0 where
  pub number_ok : IsNumber x
  pub whole : x.length ≡ 0
  pub exact : above x.sign (number x.source) ≡ below x.sign (number x.source) + n

record IsSmall (x : Decimal) (n : ℕ) : Type 0 where
  number_ok : IsNumber x
  whole : x.length ≡ 0
  positive : x.sign ≡ plus
  exact : number x.source ≡ n
