-- ===== src/Stringify/Examples.antt =====
-- Runs of the theorems on texts.
use vitex.Common.{ℕ, ◌≡◌, ◌≢◌, ◌↔◌, refl, arith, List, [], ◌∷◌, ◌++◌, true, none, some}
use vitex.Common.Lists.{length}
use vitex.Stringify.Split.{pm_split, pm_split_text}
use vitex.Stringify.Split.RoundTrip.{join, pm_split-join}
use vitex.Stringify.Split.Empty.{pm_split_text-empty}
use vitex.Stringify.Trim.{trim, AllSpaces, IsTrimmed, trim_lem}
use vitex.Stringify.Match.{bar, match_}
use vitex.Stringify.Match.Question.{match_question}
use vitex.Stringify.Numeric.{has_number, has_decimal, has_integer, integer_loop}
use vitex.Stringify.Numeric.Grammar.{AllDigits, IsUnsigned, IsSigned, numeric_lem}
use vitex.Stringify.Numeric.Throws.{has_decimal_throws}

-- "a,,bc" at the commas.
pm_split-join_example :
    pm_split (join 44 ((97 ∷ []) ∷ [] ∷ []) (98 ∷ 99 ∷ [])) 44 0
    ≡ some ((97 ∷ []) ∷ [] ∷ (98 ∷ 99 ∷ []) ∷ [])
pm_split-join_example =
    pm_split-join 44 ((97 ∷ []) ∷ [] ∷ []) (98 ∷ 99 ∷ []) ((refl, tt), (tt, tt)) (refl, (refl, tt))
      (omega arith)

pm_split_text-empty_example : pm_split_text 1000 (97 ∷ 98 ∷ []) [] 1 ≡ none
pm_split_text-empty_example = pm_split_text-empty 1000 97 (98 ∷ []) 1 (omega arith)

-- The pattern "?b" and the text "ab".
no_bar : bar (98 ∷ []) ≡ none
unfolding bar
no_bar = refl

match_question_example : match_ 1000 (63 ∷ 98 ∷ []) (97 ∷ 98 ∷ []) ≡ none
match_question_example = match_question 1000 (98 ∷ []) 97 (98 ∷ []) no_bar (omega arith)

-- "-1.5".
numeric_example :
    ((has_integer (45 ∷ 49 ∷ 46 ∷ 53 ∷ []) ≡ true)
      ↔ ((ds : List ℕ) × AllDigits ds × (length ds ≢ 0) × IsSigned ds (45 ∷ 49 ∷ 46 ∷ 53 ∷ [])))
    × ((has_number (45 ∷ 49 ∷ 46 ∷ 53 ∷ []) ≡ true)
        ↔ ((u : List ℕ) × IsUnsigned u × IsSigned u (45 ∷ 49 ∷ 46 ∷ 53 ∷ [])))
numeric_example = numeric_lem (45 ∷ 49 ∷ 46 ∷ 53 ∷ [])

five_integer : has_integer (53 ∷ []) ≡ true
unfolding has_integer integer_loop
five_integer = refl

has_decimal_throws_example : has_decimal ((53 ∷ []) ++ 46 ∷ []) ≡ none
has_decimal_throws_example = has_decimal_throws (53 ∷ []) five_integer

-- " a b ".
trim_example :
    (before : List ℕ) × (after : List ℕ) × (32 ∷ 97 ∷ 32 ∷ 98 ∷ 32 ∷ []
      ≡ before ++ (trim (32 ∷ 97 ∷ 32 ∷ 98 ∷ 32 ∷ []) ++ after))
    × AllSpaces before
    × AllSpaces after
    × IsTrimmed (trim (32 ∷ 97 ∷ 32 ∷ 98 ∷ 32 ∷ []))
trim_example = trim_lem (32 ∷ 97 ∷ 32 ∷ 98 ∷ 32 ∷ [])
