-- ===== src/Decimal/Number/Zeros.antt =====
-- What the removal of zeros keeps: the digits, the number and a digit before the point.
use vitex.Common.{
  true, false, ◌*◌, sym, ◌∙◌, ℕ, zero, suc, ◌+◌, ◌-◌, ◌^◌, ◌≤◌, ◌≡◌, ◌⊎◌, inl, inr, arith, refl, ap,
  List, [], ◌∷◌, ◌==◌, Bool-cases,
}
use vitex.Common.Lists.{length}
use vitex.Decimal.Digits.Value.{IsDigit, AreDigits, number}
use vitex.Decimal.Number.{
  is_nan, is_nan_sign, drop_zeros, trim, untrail, Decimal, strip, strip_char, unlead, all_zeros,
  is_zero,
}
use vitex.Decimal.Number.Laws.{IsValid, IsLean}
use native.Mathlib.Nat.{pow-suc}

-- What is left of digits that are cut down to `keep` at least.
record IsStripped (keep : ℕ) (before after : List ℕ) : Type 0 where
  digits : AreDigits after
  number_same : number after ≡ number before
  shorter : length after ≤ length before
  kept : keep ≤ length before → keep ≤ length after
  lean : (length after ≤ keep) ⊎ (10 ^ (length after - 1) ≤ number after)

pow_pred : (k : ℕ) → 10 ^ (suc k - 1) ≡ 10 ^ k
pow_pred k = ap (λ (n : ℕ). 10 ^ n) same
  where
    same : suc k - 1 ≡ k
    same = omega arith

IsStripped-cons :
    (keep c : ℕ) (before after : List ℕ)
    → IsDigit c
    → IsStripped keep before after
    → IsStripped (suc keep) (c ∷ before) (c ∷ after)
IsStripped-cons keep c before [] h s = ground (arith, s.lean)
IsStripped-cons keep c before (d ∷ ds) h s = record {
  digits = (h, s.digits);
  number_same = omega (arith, s.number_same);
  shorter = omega (arith, s.shorter);
  kept = λ k. omega (arith, s.kept (omega arith));
  lean = elim s.lean [
    | inl few ↦ inl (omega arith)
    | inr top ↦ inr (
        omega
          (arith, top, pow-suc 10 (length ds), pow_pred (length ds), pow_pred (suc (length ds))))
  ];
}

strip_char-IsStripped :
    (c : ℕ) (before after : List ℕ)
    → IsDigit c
    → IsStripped 0 before after
    → IsStripped 0 (c ∷ before) (strip_char c after)
unfolding strip_char
strip_char-IsStripped c before [] h s = elim (Bool-cases (c == b'0')) [
  | inl z ↦ rw z (record {
    digits = tt;
    number_same = ground (arith, s.number_same);
    shorter = omega arith;
    kept = λ k. omega arith;
    lean = inl (omega arith);
  })
  | inr nz ↦ rw nz (record {
    digits = (h, tt);
    number_same = omega (arith, s.number_same);
    shorter = omega (arith, s.shorter);
    kept = λ k. omega arith;
    lean = inr (ground (arith, pow_pred 0));
  })
]
strip_char-IsStripped c before (d ∷ ds) h s = record {
  digits = (h, s.digits);
  number_same = omega (arith, s.number_same);
  shorter = omega (arith, s.shorter);
  kept = λ k. omega arith;
  lean = elim s.lean [
    | inl few ↦ absurd (omega arith)
    | inr top ↦ inr (
        omega
          (arith, top, pow-suc 10 (length ds), pow_pred (length ds), pow_pred (suc (length ds))))
  ];
}

strip-IsStripped : (keep : ℕ) (xs : List ℕ) → AreDigits xs → IsStripped keep xs (strip keep xs)
unfolding strip
strip-IsStripped zero [] h = record {
  digits = tt;
  number_same = refl;
  shorter = omega arith;
  kept = λ k. k;
  lean = inl (omega arith);
}
strip-IsStripped zero (c ∷ cs) (hc, hcs) =
    strip_char-IsStripped c cs (strip zero cs) hc (strip-IsStripped zero cs hcs)
strip-IsStripped (suc keep) [] h = record {
  digits = tt;
  number_same = refl;
  shorter = omega arith;
  kept = λ k. k;
  lean = inl (omega arith);
}
strip-IsStripped (suc keep) (c ∷ cs) (hc, hcs) =
    IsStripped-cons keep c cs (strip keep cs) hc (strip-IsStripped keep cs hcs)

module _ (x : Decimal) (v : IsValid x) where
  -- Without its leading zeros a number is lean, and stands for what it stood for.
  pub unlead-IsValid : IsValid (unlead x)
  unfolding unlead
  unlead-IsValid =
      let s = strip-IsStripped (x.length + 1) x.source v.digits in
      record { digits = s.digits; whole = omega (arith, s.kept (omega (arith, v.whole))) }

  pub unlead-IsLean : IsLean (unlead x)
  unfolding unlead
  unlead-IsLean =
      let s = strip-IsStripped (x.length + 1) x.source v.digits in
      elim s.lean [
        | inl few ↦ inl (omega (arith, s.kept (omega (arith, v.whole))))
        | inr top ↦ inr top
      ]

  pub number-unlead : number (unlead x).source ≡ number x.source
  unfolding unlead
  number-unlead = (strip-IsStripped (x.length + 1) x.source v.digits).number_same

-- The test for zero reads the digits.
all_zeros_lem : (xs : List ℕ) → AreDigits xs → all_zeros xs ≡ (number xs == 0)
unfolding all_zeros
all_zeros_lem [] _ = refl
all_zeros_lem (c ∷ cs) (hc, hcs) = ground (arith, all_zeros_lem cs hcs)

pub is_zero_lem : (x : Decimal) → IsValid x → is_zero x ≡ (number x.source == 0)
unfolding is_zero
is_zero_lem x v = all_zeros_lem x.source v.digits

-- Without its leading zeros a well-formed number is well-formed, has no leading zero and is the same
-- number.
pub unlead_lem :
    (x : Decimal)
    → IsValid x
    → IsValid (unlead x) × IsLean (unlead x) × (number (unlead x).source ≡ number x.source)
unlead_lem x v = (unlead-IsValid x v, unlead-IsLean x v, number-unlead x v)

-- Each zero that goes stood for a factor of ten.
drop_zeros_lem :
    (xs : List ℕ) (n : ℕ)
    → ((drop_zeros xs n).1 ≤ n)
      × (number xs ≡ 10 ^ (n - (drop_zeros xs n).1) * number (drop_zeros xs n).0)
unfolding drop_zeros
drop_zeros_lem [] n = (omega arith, omega arith)
drop_zeros_lem (c ∷ cs) zero = (omega arith, omega arith)
drop_zeros_lem (c ∷ cs) (suc n) = elim (Bool-cases (c == b'0')) [
  | inl z ↦ let rest = drop_zeros_lem cs n in rw z (omega (arith, rest.0), scaled_up z rest)
  | inr nz ↦ rw nz (omega arith, kept n)
]
  where
    kept : (k : ℕ) → number (c ∷ cs) ≡ 10 ^ (suc k - suc k) * number (c ∷ cs)
    kept k = omega arith ∙ ap (λ (t : ℕ). 10 ^ t * number (c ∷ cs)) (none_gone k)
      where
        none_gone : (k : ℕ) → 0 ≡ suc k - suc k
        none_gone k = omega arith

    scaled_up :
        c == b'0' ≡ true
        → ((drop_zeros cs n).1 ≤ n)
          × (number cs ≡ 10 ^ (n - (drop_zeros cs n).1) * number (drop_zeros cs n).0)
        → number (c ∷ cs) ≡ 10 ^ (suc n - (drop_zeros cs n).1) * number (drop_zeros cs n).0
    scaled_up z (le, e) =
        let one_more : 10 ^ (suc n - (drop_zeros cs n).1) ≡ 10 ^ (n - (drop_zeros cs n).1) * 10 =
          ap (λ (t : ℕ). 10 ^ t) (next n (drop_zeros cs n).1 le)
          ∙ pow-suc 10 (n - (drop_zeros cs n).1) in
        ground (arith, ap (λ (t : ℕ). t * number (drop_zeros cs n).0) one_more)
      where
        next : (k m : ℕ) → m ≤ k → suc k - m ≡ suc (k - m)
        next k m l = omega arith

-- Trimming a well-formed number adds no digit behind the point, and the number of the digits
-- before is the one after times 10 for each digit behind the point that went.
pub trim_lem :
    (x : Decimal)
    → IsValid x
    → is_nan x ≡ false
    → ((trim x).length ≤ x.length)
      × (number x.source ≡ 10 ^ (x.length - (trim x).length) * number (trim x).source)
unfolding trim untrail is_nan is_nan_sign unlead
trim_lem x v h =
    let s = drop_zeros_lem (unlead x).source x.length in rw h (s.0, sym (number-unlead x v) ∙ s.1)
