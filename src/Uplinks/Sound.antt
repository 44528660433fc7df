-- ===== src/Uplinks/Sound.antt =====
-- What holds of every entry of the pool, and that `put` and `erase` keep it.
use vitex.Common.{
  ℕ, suc, ◌≡◌, ◌≤◌, ◌<◌, ◌⊎◌, inl, inr, arith, refl, sym, ap, ◌∙◌, List, [], ◌∷◌, Bool-cases,
  if_both, none, some,
}
use vitex.Common.Lists.{length}
use vitex.Uplinks.Entries.{Pool, same, find, put, erase, insert, remove}
use vitex.Uplinks.Find.{same-eq, same_sym, find-put_other, find-erase-none}

-- An entry with requests has no stream to give and none to allow; there are at most `most` streams.
pub record IsSound (most : ℕ) (pool : Pool) : Type 0 where
  pub waits : (pool.requests ≡ []) ⊎ ((pool.streams ≡ []) × (pool.duplicates ≡ 0))
  pub few : length pool.streams ≤ most
  pub allowed : pool.duplicates < most

-- Sound entries, no two of them under one name.
abbrev pub AllSound : ℕ → List (List ℕ × Pool) → Type 0
AllSound most [] = Unit
AllSound most ((n, pool) ∷ cs) = IsSound most pool × (find n cs ≡ none) × AllSound most cs

module _ (most : ℕ) where
  pub find-IsSound :
      (name : List ℕ) (cs : List (List ℕ × Pool)) (pool : Pool)
      → AllSound most cs
      → find name cs ≡ some pool
      → IsSound most pool
  unfolding find
  find-IsSound name [] pool h e = absurd (ground arith)
  find-IsSound name ((n, p) ∷ cs) pool (s, new, h) e = elim (Bool-cases (same n name)) [
    | inl here ↦ let this : p ≡ pool = ground (arith, here) in rw this at s
    | inr apart ↦ find-IsSound name cs pool h (ground (arith, apart))
  ]

  pub put-AllSound :
      (name : List ℕ) (pool : Pool) (cs : List (List ℕ × Pool))
      → AllSound most cs
      → IsSound most pool
      → AllSound most (put name pool cs)
  unfolding put find
  put-AllSound name pool [] h s = (s, refl, tt)
  put-AllSound name pool ((n, p) ∷ cs) (old, new, h) s =
      if_both (AllSound most) (same n name) (λ e. (s, new, h))
        (λ e. (
          old,
          find-put_other n name pool cs (same_sym name n ∙ e) ∙ new,
          put-AllSound name pool cs h s,
        ))

  pub erase-AllSound :
      (name : List ℕ) (cs : List (List ℕ × Pool)) → AllSound most cs → AllSound most (erase name cs)
  unfolding erase
  erase-AllSound name [] h = tt
  erase-AllSound name ((n, p) ∷ cs) (old, new, h) =
      if_both (AllSound most) (same n name) (λ e. h)
        (λ e. (old, find-erase-none n name cs new, erase-AllSound name cs h))

pub length-remove : (t : ℕ) (ts : List ℕ) → length (remove t ts) ≤ length ts
unfolding remove
length-remove t [] = omega arith
length-remove t (x ∷ ts) = ground (arith, length-remove t ts)

pub length-insert : (t : ℕ) (ts : List ℕ) → length (insert t ts) ≤ suc (length ts)
unfolding insert
length-insert t ts = ground arith

pub find-erase :
    (most : ℕ) (n : List ℕ) (cs : List (List ℕ × Pool))
    → AllSound most cs
    → find n (erase n cs) ≡ none
unfolding find erase
find-erase most n [] h = refl
find-erase most n ((m, p) ∷ cs) (s, new, h) = elim (Bool-cases (same m n)) [
  | inl here ↦
      let equal : m ≡ n = same-eq m n here in
      rw here (ap (λ (t : List ℕ). find t cs) (sym equal) ∙ new)
  | inr there ↦ rw there (ground (arith, there, find-erase most n cs h))
]
