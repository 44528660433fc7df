-- ===== src/Stringify/Numeric/Throws.antt =====
-- `has_decimal` of a number with nothing behind its point.
use vitex.Common.{
  ℕ, suc, ◌+◌, ◌-◌, ◌≡◌, refl, sym, arith, List, [], ◌∷◌, ◌++◌, true, false, ltb, ◌==◌, ◌||◌, none,
  inl, inr, Bool-cases,
}
use vitex.Common.Lists.{length, length-append, take-append_length}
use vitex.Stringify.Find.{settle, search, find, is_empty}
use vitex.Stringify.Numeric.{has_integer, has_decimal, is_numeric, integer_loop, unsigned, is_short}

-- The point is found behind a text without one.
abbrev pub NoPoint : List ℕ → Type 0
NoPoint [] = Unit
NoPoint (c ∷ cs) = (c == 46 ≡ false) × NoPoint cs

search_point :
    (size i : ℕ) (t : List ℕ)
    → NoPoint t
    → search (λ c. c == 46) size i (t ++ 46 ∷ []) ≡ settle (i + length t) (i + length t + 1) true
unfolding search
search_point size i [] h = ground arith
search_point size i (c ∷ t) (h, hs) =
    let moved : i + 1 + length t ≡ i + suc (length t) = omega arith in
    rw (h, sym moved) (search_point size (i + 1) t hs)

digits-NoPoint : (n : ℕ) (t : List ℕ) → integer_loop n t ≡ true → NoPoint t
unfolding integer_loop
digits-NoPoint n [] e = tt
digits-NoPoint n (c ∷ t) e = elim (Bool-cases (is_numeric c)) [
  | inl q ↦ (ground (arith, q), digits-NoPoint (n + 1) t (rw (q, integer_loop) at e))
  | inr q ↦ absurd (ground (arith, q, e))
]

unsigned-NoPoint : (t : List ℕ) → NoPoint (unsigned t) → NoPoint t
unsigned-NoPoint [] h = tt
unsigned-NoPoint (c ∷ t) h = elim (Bool-cases ((c == 43) || (c == 45))) [
  | inl q ↦ (ground (arith, q), rw q at h)
  | inr q ↦ rw q at h
]

integer-NoPoint : (t : List ℕ) → has_integer t ≡ true → NoPoint t
unfolding has_integer
integer-NoPoint t e = elim (Bool-cases (is_short t)) [
  | inl q ↦ absurd (ground (arith, q, e))
  | inr q ↦ unsigned-NoPoint t (digits-NoPoint 0 (unsigned t) (rw (q, has_integer) at e))
]

integer_some : (t : List ℕ) → has_integer t ≡ true → is_empty t ≡ false
unfolding has_integer
integer_some [] e = absurd (ground (arith, e))
integer_some (c ∷ t) e = refl

-- has_decimal reads beyond the end, where substr throws, for every integer with a point and
-- nothing behind it.
pub has_decimal_throws : (t : List ℕ) → has_integer t ≡ true → has_decimal (t ++ 46 ∷ []) ≡ none
unfolding has_decimal find has_integer
has_decimal_throws t e =
    let before : 0 + length t + 1 - 1 ≡ length t = omega arith in
    let beyond : ltb (length (t ++ 46 ∷ [])) (0 + length t + 1 + 1) ≡ true =
      ground (arith, length-append t (46 ∷ [])) in
    rw
      (
        has_decimal,
        find,
        search_point (length (t ++ 46 ∷ [])) 0 t (integer-NoPoint t e),
        before,
        take-append_length (length t) t (46 ∷ []) refl,
        integer_some t e,
        e,
        beyond,
      )
      refl
