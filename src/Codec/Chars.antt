-- ===== src/Codec/Chars.antt =====
-- Characters by their codes, the classes of the C locale, and checks of all small numbers.
use vitex.Common.{
  ℕ, zero, suc, ◌+◌, ◌≡◌, ◌<◌, inl, inr, arith, refl, ap, ◌∙◌, List, [], ◌∷◌, Bool, true, false,
  leb, ◌==◌, ◌&&◌, ◌||◌, if◌then◌else◌, Bool-cases,
}

-- The character of a string at a place; 0 ends it.
abbrev pub at : List ℕ → ℕ → ℕ
at [] i = 0
at (c ∷ cs) zero = c
at (c ∷ cs) (suc i) = at cs i

abbrev pub isdigit : ℕ → Bool
isdigit c = leb 48 c && leb c 57

abbrev pub isupper : ℕ → Bool
isupper c = leb 65 c && leb c 90

abbrev pub islower : ℕ → Bool
islower c = leb 97 c && leb c 122

abbrev pub isalnum : ℕ → Bool
isalnum c = isdigit c || isupper c || islower c

abbrev pub isxdigit : ℕ → Bool
isxdigit c = isdigit c || (leb 65 c && leb c 70) || (leb 97 c && leb c 102)

abbrev pub tolower : ℕ → ℕ
tolower c = if isupper c then c + 32 else c

-- A test passes for all numbers below a bound.
abbrev pub all_below : ℕ → (ℕ → Bool) → Bool
all_below zero p = true
all_below (suc n) p = p n && all_below n p

pub all_below_lem : (n : ℕ) (p : ℕ → Bool) → all_below n p ≡ true → (i : ℕ) → i < n → p i ≡ true
all_below_lem zero p h i l = absurd (omega arith)
all_below_lem (suc n) p h i l = elim (Bool-cases (i == n)) [
  | inl same ↦
      let equal : i ≡ n = ground (arith, same) in
      let all : p n ≡ true = ground (arith, h) in ap p equal ∙ all
  | inr other ↦ all_below_lem n p (ground (arith, h)) i (ground (arith, other))
]

pub and_both : (p q : Bool) → p && q ≡ true → (p ≡ true) × (q ≡ true)
and_both true q h = (refl, h)
and_both false q h = absurd (ground arith)

pub equal_of : (a b : ℕ) → a == b ≡ true → a ≡ b
equal_of a b h = ground arith
