-- ===== src/Stringify/Trim.antt =====
-- `trim`, `trim_start` and `trim_end`.
use vitex.Common.{
  ℕ, ◌≡◌, ◌∙◌, refl, ap, inl, inr, List, [], ◌∷◌, ◌++◌, true, false, if◌then◌else◌, Bool-cases,
}
use vitex.Codec.Hex.{isspace}

unfoldable pub trim_start : List ℕ → List ℕ
trim_start [] = []
trim_start (c ∷ cs) = let rest = trim_start cs in if isspace c then rest else c ∷ cs

-- A character that is behind the last one to keep goes.
abbrev pub keep_end : ℕ → List ℕ → List ℕ
keep_end c [] = if isspace c then [] else c ∷ []
keep_end c (d ∷ ds) = c ∷ d ∷ ds

unfoldable pub trim_end : List ℕ → List ℕ
trim_end [] = []
trim_end (c ∷ cs) = keep_end c (trim_end cs)

unfoldable pub trim : List ℕ → List ℕ
unfolding trim_start trim_end
trim other = trim_end (trim_start other)

abbrev pub AllSpaces : List ℕ → Type 0
AllSpaces [] = Unit
AllSpaces (c ∷ cs) = (isspace c ≡ true) × AllSpaces cs

abbrev pub last : ℕ → List ℕ → ℕ
last c [] = c
last c (d ∷ ds) = last d ds

-- A text without a space at either end.
abbrev pub IsTrimmed : List ℕ → Type 0
IsTrimmed [] = Unit
IsTrimmed (c ∷ cs) = (isspace c ≡ false) × (isspace (last c cs) ≡ false)

abbrev StartsBare : List ℕ → Type 0
StartsBare [] = Unit
StartsBare (c ∷ cs) = isspace c ≡ false

abbrev EndsBare : List ℕ → Type 0
EndsBare [] = Unit
EndsBare (c ∷ cs) = isspace (last c cs) ≡ false

trim_start_lem :
    (t : List ℕ)
    → (before : List ℕ) × (t ≡ before ++ trim_start t)
      × AllSpaces before
      × StartsBare (trim_start t)
unfolding trim_start
trim_start_lem [] = ([], refl, tt, tt)
trim_start_lem (c ∷ cs) = elim (Bool-cases (isspace c)) [
  | inl q ↦
      let (before, e, h, s) = trim_start_lem cs in
      (
        c ∷ before,
        (rw (q, trim_start) (ap (λ (t : List ℕ). c ∷ t) e)),
        (q, h),
        (rw (q, trim_start) s),
      )
  | inr q ↦ ([], (rw (q, trim_start) refl), tt, (rw (q, trim_start) q))
]

keep_end_lem :
    (c : ℕ) (cs u after : List ℕ)
    → cs ≡ u ++ after
    → AllSpaces after
    → EndsBare u
    → (more : List ℕ) × (c ∷ cs ≡ keep_end c u ++ more) × AllSpaces more × EndsBare (keep_end c u)
keep_end_lem c cs [] after e h b = elim (Bool-cases (isspace c)) [
  | inl q ↦ (c ∷ after, (rw q (ap (λ (t : List ℕ). c ∷ t) e)), (q, h), (rw q tt))
  | inr q ↦ (after, (rw q (ap (λ (t : List ℕ). c ∷ t) e)), h, (rw q q))
]
keep_end_lem c cs (d ∷ ds) after e h b = (after, ap (λ (t : List ℕ). c ∷ t) e, h, b)

trim_end_lem :
    (t : List ℕ)
    → (after : List ℕ) × (t ≡ trim_end t ++ after) × AllSpaces after × EndsBare (trim_end t)
unfolding trim_end
trim_end_lem [] = ([], refl, tt, tt)
trim_end_lem (c ∷ cs) =
    let (after, e, h, b) = trim_end_lem cs in keep_end_lem c cs (trim_end cs) after e h b

-- What begins without a space still does when its end is trimmed.
trim_end-IsTrimmed : (t : List ℕ) → StartsBare t → EndsBare (trim_end t) → IsTrimmed (trim_end t)
unfolding trim_end
trim_end-IsTrimmed [] s b = tt
trim_end-IsTrimmed (c ∷ cs) s b = kept (trim_end cs) b
  where
    kept : (u : List ℕ) → EndsBare (keep_end c u) → IsTrimmed (keep_end c u)
    kept [] h = rw s (s, s)
    kept (d ∷ ds) h = (s, h)

-- trim takes spaces away from both ends of a text and nothing else, and what it leaves neither
-- begins nor ends with a space: the text is spaces, what trim leaves, and spaces.
pub trim_lem :
    (t : List ℕ)
    → (before : List ℕ) × (after : List ℕ) × (t ≡ before ++ (trim t ++ after))
      × AllSpaces before
      × AllSpaces after
      × IsTrimmed (trim t)
unfolding trim
trim_lem t =
    let (before, e, h, s) = trim_start_lem t in
    let (after, f, k, b) = trim_end_lem (trim_start t) in
    (
      before,
      after,
      e ∙ ap (λ (x : List ℕ). before ++ x) f,
      h,
      k,
      trim_end-IsTrimmed (trim_start t) s b,
    )
