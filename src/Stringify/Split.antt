-- ===== src/Stringify/Split.antt =====
-- `pm_split` and its kin: the pieces of a text between separators.
pub mod RoundTrip
pub mod Empty
use vitex.Common.{
  ℕ, zero, suc, ◌+◌, ◌-◌, List, [], ◌∷◌, ◌++◌, Bool, true, false, ltb, leb, ◌==◌, ◌&&◌,
  if◌then◌else◌, Option, none, some,
}
use vitex.Common.Lists.{length, take, drop}
use vitex.Stringify.Find.{Settle, find, find_of, find_not_of, find_text}

abbrev pub substr : List ℕ → ℕ → ℕ → List ℕ
substr other offset n = take n (drop offset other)

-- The loop, for any way to find the next separator. `none`: the fuel ran out.
unfoldable pub split_loop : ℕ → (ℕ → Settle) → List ℕ → ℕ → List (List ℕ) → Option (List (List ℕ))
split_loop zero finds other offset output = none
split_loop (suc n) finds other offset output =
    let result = finds offset in
    let rest =
      split_loop n finds other result.end
        (output ++ substr other offset (result.start - offset) ∷ []) in
    if result.found
    then rest
    else some (if ltb offset (length other) then output ++ drop offset other ∷ [] else output)

-- A round for each character and one more; `fuel` where more are wanted.
unfoldable pub split_by : ℕ → (ℕ → Settle) → List ℕ → ℕ → Option (List (List ℕ))
unfolding split_loop
split_by fuel finds other start =
    if leb (length other) start then some [] else split_loop fuel finds other start []

unfoldable pub pm_split : List ℕ → ℕ → ℕ → Option (List (List ℕ))
unfolding split_by find
pm_split other with start = split_by (suc (length other)) (find other with) other start

unfoldable pub pm_split_of : List ℕ → List ℕ → ℕ → Option (List (List ℕ))
unfolding split_by find_of
pm_split_of other with start = split_by (suc (length other)) (find_of other with) other start

unfoldable pub pm_split_not_of : List ℕ → List ℕ → ℕ → Option (List (List ℕ))
unfolding split_by find_not_of
pm_split_not_of other with start =
    split_by (suc (length other)) (find_not_of other with) other start

unfoldable pub pm_split_text : ℕ → List ℕ → List ℕ → ℕ → Option (List (List ℕ))
unfolding split_by find_text
pm_split_text fuel other with start = split_by fuel (find_text other with) other start

-- `pm_split_max`: the loop goes on while there are fewer than `count` pieces.
unfoldable pub split_max_loop :
    ℕ → (ℕ → Settle) → List ℕ → ℕ → ℕ → List (List ℕ) → Option (List (List ℕ))
split_max_loop zero finds other count offset output = none
split_max_loop (suc n) finds other count offset output =
    let result = finds offset in
    let rest =
      split_max_loop n finds other count result.end
        (output ++ substr other offset (result.start - offset) ∷ []) in
    if result.found && ltb (length output) count
    then rest
    else some (
        if ltb offset (length other) && ltb (length output) count
        then output ++ drop offset other ∷ []
        else output)

unfoldable pub pm_split_max : List ℕ → ℕ → ℕ → ℕ → Option (List (List ℕ))
unfolding split_max_loop find
pm_split_max other with count start =
    if leb (length other) start
    then some []
    else split_max_loop (suc (length other)) (find other with) other count start []
