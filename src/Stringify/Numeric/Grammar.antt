-- ===== src/Stringify/Numeric/Grammar.antt =====
-- `has_integer` and `has_number` decide two grammars.
use vitex.Common.{
  ℕ, ◌+◌, ◌≡◌, ◌≢◌, ◌<◌, ◌↔◌, inl, inr, ◌∙◌, refl, ap, sym, arith, List, [], ◌∷◌, ◌++◌, true, false,
  ◌==◌, Bool-cases,
}
use vitex.Common.Lists.{length}
use vitex.Stringify.Numeric.{
  is_numeric, is_short, unsigned, integer_loop, has_integer, number_loop, has_number,
}

abbrev pub AllDigits : List ℕ → Type 0
AllDigits [] = Unit
AllDigits (c ∷ cs) = (is_numeric c ≡ true) × AllDigits cs

-- A sign or none.
pub data IsSigned (digits : List ℕ) (text : List ℕ) : Type 0 where
  plain : text ≡ digits → IsSigned digits text
  positive : text ≡ 43 ∷ digits → IsSigned digits text
  negative : text ≡ 45 ∷ digits → IsSigned digits text

-- Digits, one at least; in a number also digits or none, a point, and digits, one at least.
pub data IsUnsigned (text : List ℕ) : Type 0 where
  whole : AllDigits text → length text ≢ 0 → IsUnsigned text
  broken :
      (ds es : List ℕ)
      → text ≡ ds ++ 46 ∷ es
      → AllDigits ds
      → AllDigits es
      → length es ≢ 0
      → IsUnsigned text

integer_digits : (n : ℕ) (cs : List ℕ) → integer_loop n cs ≡ true → AllDigits cs
unfolding integer_loop
integer_digits n [] e = tt
integer_digits n (c ∷ cs) e = elim (Bool-cases (is_numeric c)) [
  | inl q ↦ (q, integer_digits (n + 1) cs (rw (q, integer_loop) at e))
  | inr q ↦ absurd (ground (arith, q, e))
]

digits_integer : (n : ℕ) (cs : List ℕ) → AllDigits cs → 0 < n + length cs → integer_loop n cs ≡ true
unfolding integer_loop
digits_integer n [] h l = ground arith
digits_integer n (c ∷ cs) (h, hs) l = rw h (digits_integer (n + 1) cs hs (omega arith))

signed_lem : (t : List ℕ) → IsSigned (unsigned t) t
signed_lem [] = plain refl
signed_lem (c ∷ cs) = elim (Bool-cases (c == 43)) [
  | inl p ↦ positive (ground (arith, p))
  | inr p ↦ elim (Bool-cases (c == 45)) [
    | inl q ↦ negative (ground (arith, p, q))
    | inr q ↦ plain (rw (p, q) refl)
  ]
]

unsigned_digits : (ds : List ℕ) → AllDigits ds → unsigned ds ≡ ds
unsigned_digits [] h = refl
unsigned_digits (c ∷ ds) (h, hs) = ground (arith, h)

-- What stands alone or behind a sign is not too short, and the loop begins at it.
signed_start :
    (u t : List ℕ)
    → is_short u ≡ false
    → unsigned u ≡ u
    → IsSigned u t
    → (is_short t ≡ false) × (unsigned t ≡ u)
signed_start [] t n h s = absurd (ground (arith, n))
signed_start (c ∷ u) t n h (plain e) = (ap is_short e ∙ n, ap unsigned e ∙ h)
signed_start (c ∷ u) t n h (positive e) = (ap is_short e, ap unsigned e)
signed_start (c ∷ u) t n h (negative e) = (ap is_short e, ap unsigned e)

digits_enough : (ds : List ℕ) → AllDigits ds → length ds ≢ 0 → is_short ds ≡ false
digits_enough [] h n = absurd (n refl)
digits_enough (c ∷ []) (h, hs) n = ground (arith, h)
digits_enough (c ∷ d ∷ ds) h n = refl

has_integer_lem :
    (t : List ℕ)
    → (has_integer t ≡ true) ↔ ((ds : List ℕ) × AllDigits ds × (length ds ≢ 0) × IsSigned ds t)
unfolding has_integer
has_integer_lem t = (there, back)
  where
    loop_of : has_integer t ≡ true → integer_loop 0 (unsigned t) ≡ true
    loop_of e = elim (Bool-cases (is_short t)) [
      | inl q ↦ absurd (ground (arith, q, e))
      | inr q ↦ rw (q, has_integer) at e
    ]

    some_digit : (u : List ℕ) → integer_loop 0 u ≡ true → length u ≢ 0
    some_digit [] e n = absurd (unfold integer_loop in ground (arith, e))
    some_digit (c ∷ u) e n = absurd (omega arith)

    there : has_integer t ≡ true → (ds : List ℕ) × AllDigits ds × (length ds ≢ 0) × IsSigned ds t
    there e = (
      unsigned t,
      integer_digits 0 (unsigned t) (loop_of e),
      some_digit (unsigned t) (loop_of e),
      signed_lem t,
    )

    back : (ds : List ℕ) × AllDigits ds × (length ds ≢ 0) × IsSigned ds t → has_integer t ≡ true
    back (ds, h, n, s) =
        let (short, start) = signed_start ds t (digits_enough ds h n) (unsigned_digits ds h) s in
        rw (short, start) (digits_integer 0 ds h (omega (arith, n)))

-- Behind the point only digits are left.
behind_digits : (n : ℕ) (cs : List ℕ) → number_loop n 1 cs ≡ true → AllDigits cs
unfolding number_loop
behind_digits n [] e = tt
behind_digits n (c ∷ cs) e = elim (Bool-cases (is_numeric c)) [
  | inl q ↦ (q, behind_digits (n + 1) cs (rw (q, number_loop) at e))
  | inr q ↦ absurd (ground (arith, q, e))
]

digits_behind : (n : ℕ) (cs : List ℕ) → AllDigits cs → 0 < n + length cs → number_loop n 1 cs ≡ true
unfolding number_loop
digits_behind n [] h l = ground arith
digits_behind n (c ∷ cs) (h, hs) l = rw h (digits_behind (n + 1) cs hs (omega arith))

-- What the loop accepts before the point, behind some digits.
data Rest (n : ℕ) (cs : List ℕ) : Type 0 where
  ends : AllDigits cs → 0 < n + length cs → Rest n cs
  goes_on :
      (ds es : List ℕ)
      → cs ≡ ds ++ 46 ∷ es
      → AllDigits ds
      → AllDigits es
      → length es ≢ 0
      → Rest n cs

one_more : (n c : ℕ) (cs : List ℕ) → is_numeric c ≡ true → Rest (n + 1) cs → Rest n (c ∷ cs)
one_more n c cs h (ends a l) = ends (h, a) (omega arith)
one_more n c cs h (goes_on ds es e a b k) =
    goes_on (c ∷ ds) es (ap (λ (t : List ℕ). c ∷ t) e) (h, a) b k

point_here :
    (n c : ℕ) (cs : List ℕ)
    → is_numeric c ≡ false
    → number_loop n 0 (c ∷ cs) ≡ true
    → (c ≡ 46) × (length cs ≢ 0) × (number_loop n 1 cs ≡ true)
unfolding number_loop
point_here n c [] q e = absurd (ground (arith, q, e))
point_here n c (d ∷ cs) q e = elim (Bool-cases (c == 46)) [
  | inl p ↦ (ground (arith, p), (λ z. absurd (omega (arith, z))), (rw (q, p, number_loop) at e))
  | inr p ↦ absurd (ground (arith, q, p, e))
]

loop-Rest : (n : ℕ) (cs : List ℕ) → number_loop n 0 cs ≡ true → Rest n cs
unfolding number_loop
loop-Rest n [] e = ends tt (ground (arith, e))
loop-Rest n (c ∷ cs) e = elim (Bool-cases (is_numeric c)) [
  | inl q ↦ one_more n c cs q (loop-Rest (n + 1) cs (rw (q, number_loop) at e))
  | inr q ↦
      let (p, some_left, later) = point_here n c cs q e in
      goes_on [] cs (ap (λ (x : ℕ). x ∷ cs) p) tt (behind_digits n cs later) some_left
]

loop_digits : (n : ℕ) (cs : List ℕ) → AllDigits cs → 0 < n + length cs → number_loop n 0 cs ≡ true
unfolding number_loop
loop_digits n [] h l = ground arith
loop_digits n (c ∷ cs) (h, hs) l = rw h (loop_digits (n + 1) cs hs (omega arith))

loop_point :
    (n : ℕ) (ds es : List ℕ)
    → AllDigits ds
    → AllDigits es
    → length es ≢ 0
    → number_loop n 0 (ds ++ 46 ∷ es) ≡ true
unfolding number_loop
loop_point n [] [] a b k = absurd (k refl)
loop_point n [] (x ∷ es) a b k = digits_behind n (x ∷ es) b (omega arith)
loop_point n (c ∷ ds) es (a, al) b k = rw a (loop_point (n + 1) ds es al b k)

unsigned_start : (u : List ℕ) → IsUnsigned u → (is_short u ≡ false) × (unsigned u ≡ u)
unsigned_start u (whole h n) = (digits_enough u h n, unsigned_digits u h)
unsigned_start u (broken ds [] e a b k) = absurd (k refl)
unsigned_start u (broken [] (x ∷ es) e a b k) = (ap is_short e, ap unsigned e ∙ sym e)
unsigned_start u (broken (c ∷ []) (x ∷ es) e (a, al) b k) =
    (ap is_short e, ap unsigned e ∙ ground (arith, a) ∙ sym e)
unsigned_start u (broken (c ∷ d ∷ ds) (x ∷ es) e (a, al) b k) =
    (ap is_short e, ap unsigned e ∙ ground (arith, a) ∙ sym e)

unsigned_loop : (u : List ℕ) → IsUnsigned u → number_loop 0 0 u ≡ true
unsigned_loop u (whole h n) = loop_digits 0 u h (omega (arith, n))
unsigned_loop u (broken ds es e a b k) = ap (number_loop 0 0) e ∙ loop_point 0 ds es a b k

Rest-IsUnsigned : (u : List ℕ) → Rest 0 u → IsUnsigned u
Rest-IsUnsigned u (ends h l) = whole h (λ z. absurd (omega (arith, z)))
Rest-IsUnsigned u (goes_on ds es e a b k) = broken ds es e a b k

has_number_lem : (t : List ℕ) → (has_number t ≡ true) ↔ ((u : List ℕ) × IsUnsigned u × IsSigned u t)
unfolding has_number
has_number_lem t = (there, back)
  where
    loop_of : has_number t ≡ true → number_loop 0 0 (unsigned t) ≡ true
    loop_of e = elim (Bool-cases (is_short t)) [
      | inl q ↦ absurd (ground (arith, q, e))
      | inr q ↦ rw (q, has_number) at e
    ]

    there : has_number t ≡ true → (u : List ℕ) × IsUnsigned u × IsSigned u t
    there e = (
      unsigned t,
      Rest-IsUnsigned (unsigned t) (loop-Rest 0 (unsigned t) (loop_of e)),
      signed_lem t,
    )

    back : (u : List ℕ) × IsUnsigned u × IsSigned u t → has_number t ≡ true
    back (u, h, s) =
        let (short, start) = signed_start u t (unsigned_start u h).0 (unsigned_start u h).1 s in
        rw (short, start) (unsigned_loop u h)

-- has_integer holds exactly of one digit or more behind a plus sign, a minus sign or none;
-- has_number holds exactly of such texts and of digits or none, a point and one digit or more
-- behind a sign or none.
pub numeric_lem :
    (t : List ℕ)
    → ((has_integer t ≡ true) ↔ ((ds : List ℕ) × AllDigits ds × (length ds ≢ 0) × IsSigned ds t))
      × ((has_number t ≡ true) ↔ ((u : List ℕ) × IsUnsigned u × IsSigned u t))
numeric_lem t = (has_integer_lem t, has_number_lem t)
