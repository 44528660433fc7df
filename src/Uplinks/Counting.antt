-- ===== src/Uplinks/Counting.antt =====
-- Sums over the entries of the pool, and what `put` and `erase` do to them.
use vitex.Common.{
  ℕ, ◌+◌, ◌≡◌, inl, inr, arith, List, [], ◌∷◌, ◌++◌, ◌==◌, if◌then◌else◌, none, some, Bool-cases,
}
use vitex.Uplinks.Entries.{Pool, same, find, put, erase}

abbrev pub count : ℕ → List ℕ → ℕ
count c [] = 0
count c (x ∷ xs) = (if x == c then 1 else 0) + count c xs

pub count-append : (c : ℕ) (xs ys : List ℕ) → count c (xs ++ ys) ≡ count c xs + count c ys
count-append c [] ys = omega arith
count-append c (x ∷ xs) ys = omega (arith, count-append c xs ys)

abbrev pub total : (Pool → ℕ) → List (List ℕ × Pool) → ℕ
total f [] = 0
total f ((n, pool) ∷ cs) = f pool + total f cs

module _ (f : Pool → ℕ) (name : List ℕ) where
  pub total-put_new :
      (cs : List (List ℕ × Pool)) (pool : Pool)
      → find name cs ≡ none
      → total f (put name pool cs) ≡ total f cs + f pool
  unfolding find put
  total-put_new [] pool e = omega arith
  total-put_new ((n, old) ∷ cs) pool e = elim (Bool-cases (same n name)) [
    | inl here ↦ absurd (ground (arith, here))
    | inr apart ↦
        let there : find name cs ≡ none = ground (arith, apart) in
        rw apart (omega (arith, total-put_new cs pool there))
  ]

  pub total-put :
      (cs : List (List ℕ × Pool)) (old pool : Pool)
      → find name cs ≡ some old
      → total f (put name pool cs) + f old ≡ total f cs + f pool
  unfolding find put
  total-put [] old pool e = absurd (ground arith)
  total-put ((n, p) ∷ cs) old pool e = elim (Bool-cases (same n name)) [
    | inl here ↦ let this : p ≡ old = ground (arith, here) in rw (here, this) (omega arith)
    | inr apart ↦
        let there : find name cs ≡ some old = ground (arith, apart) in
        rw apart (omega (arith, total-put cs old pool there))
  ]

  pub total-erase :
      (cs : List (List ℕ × Pool)) (old : Pool)
      → find name cs ≡ some old
      → total f (erase name cs) + f old ≡ total f cs
  unfolding find erase
  total-erase [] old e = absurd (ground arith)
  total-erase ((n, p) ∷ cs) old e = elim (Bool-cases (same n name)) [
    | inl here ↦ let this : p ≡ old = ground (arith, here) in rw (here, this) (omega arith)
    | inr apart ↦
        let there : find name cs ≡ some old = ground (arith, apart) in
        rw apart (omega (arith, total-erase cs old there))
  ]
