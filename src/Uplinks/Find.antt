-- ===== src/Uplinks/Find.antt =====
-- What is found under a name after `put` and `erase`.
use vitex.Common.{
  ℕ, ◌≡◌, inl, inr, arith, refl, ap, ◌∙◌, List, [], ◌∷◌, true, false, Bool-cases, none, some,
}
use vitex.Uplinks.Entries.{Pool, same, find, put, erase}

pub same_refl : (n : List ℕ) → same n n ≡ true
same_refl [] = refl
same_refl (x ∷ xs) = ground (arith, same_refl xs)

pub same-eq : (m n : List ℕ) → same m n ≡ true → m ≡ n
same-eq [] [] e = refl
same-eq [] (y ∷ ys) e = absurd (ground arith)
same-eq (x ∷ xs) [] e = absurd (ground arith)
same-eq (x ∷ xs) (y ∷ ys) e =
    let head : x ≡ y = ground (arith, e) in
    let tail : xs ≡ ys = same-eq xs ys (ground (arith, e)) in rw (head, tail) refl

pub find-put : (n : List ℕ) (p : Pool) (cs : List (List ℕ × Pool)) → find n (put n p cs) ≡ some p
unfolding find put
find-put n p [] = ground (arith, same_refl n)
find-put n p ((m, old) ∷ cs) = ground (arith, find-put n p cs)

pub find-put_other :
    (n m : List ℕ) (p : Pool) (cs : List (List ℕ × Pool))
    → same m n ≡ false
    → find n (put m p cs) ≡ find n cs
unfolding find put
find-put_other n m p [] e = ground (arith, e)
find-put_other n m p ((k, old) ∷ cs) e = elim (Bool-cases (same k m)) [
  | inl here ↦
      let equal : k ≡ m = same-eq k m here in
      let apart : same k n ≡ false = ap (λ (t : List ℕ). same t n) equal ∙ e in
      rw here (ground (arith, apart))
  | inr there ↦ rw there (ground (arith, find-put_other n m p cs e))
]

pub same_sym : (m n : List ℕ) → same m n ≡ same n m
same_sym [] [] = refl
same_sym [] (y ∷ ys) = refl
same_sym (x ∷ xs) [] = refl
same_sym (x ∷ xs) (y ∷ ys) = ground (arith, same_sym xs ys)

pub find-erase-none :
    (n m : List ℕ) (cs : List (List ℕ × Pool)) → find n cs ≡ none → find n (erase m cs) ≡ none
unfolding find erase
find-erase-none n m [] e = refl
find-erase-none n m ((k, old) ∷ cs) e = elim (Bool-cases (same k n)) [
  | inl here ↦ absurd (ground (arith, here))
  | inr there ↦
      let later : find n cs ≡ none = ground (arith, there) in
      ground (arith, there, later, find-erase-none n m cs later)
]

pub find-erase_other :
    (n m : List ℕ) (cs : List (List ℕ × Pool)) → same m n ≡ false → find n (erase m cs) ≡ find n cs
unfolding find erase
find-erase_other n m [] e = refl
find-erase_other n m ((k, old) ∷ cs) e = elim (Bool-cases (same k m)) [
  | inl here ↦
      let equal : k ≡ m = same-eq k m here in
      let apart : same k n ≡ false = ap (λ (t : List ℕ). same t n) equal ∙ e in
      rw here (ground (arith, apart))
  | inr there ↦ rw there (ground (arith, find-erase_other n m cs e))
]
