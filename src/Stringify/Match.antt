-- ===== src/Stringify/Match.antt =====
-- `match`: patterns with `?`, `*`, `**`, `$` and alternatives behind `|`. The end of the text counts as a
-- byte 0.
pub mod Question
use vitex.Common.{
  ℕ, zero, suc, ◌+◌, List, [], ◌∷◌, Bool, true, false, not, ◌==◌, ◌&&◌, ◌||◌, if◌then◌else◌, Option,
  none, some, ◌>>=◌,
}
use vitex.Common.Lists.{length, drop}
use vitex.Codec.Chars.{tolower}

-- -1, or how many bytes of the text are matched.
pub data Found : Type 0 where
  miss : Found
  hit : ℕ → Found

-- `memchr` for `|`: the alternatives before and behind it.
unfoldable pub bar : List ℕ → Option (List ℕ × List ℕ)
bar [] = none
bar (c ∷ p) = elim (c == 124) [
  | true ↦ some ([], p)
  | false ↦ elim (bar p) [ none ↦ none | some (a, b) ↦ some (c ∷ a, b) ]
]

abbrev pub first : List ℕ → ℕ
first [] = 0
first (c ∷ cs) = c

abbrev pub tail : List ℕ → List ℕ
tail [] = []
tail (c ∷ cs) = cs

-- `strcspn` for `/`.
unfoldable pub strcspn : List ℕ → ℕ
strcspn [] = 0
strcspn (c ∷ cs) = let rest = suc (strcspn cs) in if (c == 47) || (c == 0) then 0 else rest

-- The `do` loop of `*`: as much of the text as can be, then one byte less at a time.
unfoldable pub tries : (List ℕ → List ℕ → Option Found) → List ℕ → List ℕ → ℕ → Option Found
tries again p t zero = again p t
tries again p t (suc offset) = again p (drop (suc offset) t) >>= λ r. elim r [
  | miss ↦ tries again p t offset
  | hit k ↦ some (hit (k + suc offset))
]

abbrev pub moved : ℕ → Found → Found
moved j miss = miss
moved j (hit k) = hit (j + k)

unfoldable pub star : (List ℕ → List ℕ → Option Found) → ℕ → List ℕ → List ℕ → ℕ → Option Found
unfolding tries
star again j [] t offset = some (hit (j + offset))
star again j (c ∷ p) t offset = tries again (c ∷ p) t offset >>= λ r. some (moved j r)

-- The `while` loop: `j` bytes of the text are matched, `p` and `t` are left.
unfoldable pub walk : ℕ → (List ℕ → List ℕ → Option Found) → ℕ → List ℕ → List ℕ → Option Found
unfolding star strcspn
walk zero again j p t = none
walk (suc n) again j [] t = some (hit j)
walk (suc n) again j (c ∷ p) t = elim ((c == 63) && not (first t == 0)) [
  | true ↦ walk n again j (c ∷ p) t
  | false ↦ elim (c == 36) [
    | true ↦ some (if first t == 0 then hit j else miss)
    | false ↦ elim (c == 42) [
      | true ↦
          if first p == 42 then star again j (tail p) t (length t) else star again j p t (strcspn t)
      | false ↦ elim (tolower c == tolower (first t)) [
        | true ↦ walk n again (j + 1) p (tail t)
        | false ↦ some miss
      ]
    ]
  ]
]

abbrev pub or_else : Found → Option Found → Option Found
or_else (hit (suc k)) other = some (hit (suc k))
or_else (hit zero) other = other
or_else miss other = other

-- `none`: the fuel ran out.
unfoldable pub match_ : ℕ → List ℕ → List ℕ → Option Found
unfolding bar walk
match_ zero p t = none
match_ (suc n) p t = elim (bar p) [
  | none ↦ walk n (match_ n) 0 p t
  | some (a, b) ↦ match_ n a t >>= λ r. or_else r (match_ n b t)
]
