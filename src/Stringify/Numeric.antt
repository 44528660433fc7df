-- ===== src/Stringify/Numeric.antt =====
-- The tests for numbers in a text.
pub mod Grammar
pub mod Throws
use vitex.Common.{
  ℕ, zero, suc, ◌+◌, ◌-◌, List, [], ◌∷◌, Bool, true, false, not, ltb, leb, ◌==◌, ◌&&◌, ◌||◌,
  if◌then◌else◌, Option, none, some,
}
use vitex.Common.Lists.{length, take, drop}
use vitex.Stringify.Find.{Settle, find, is_empty}

-- `is_numeric`.
abbrev pub is_numeric : ℕ → Bool
is_numeric c = leb 48 c && leb c 57

abbrev pub first : List ℕ → ℕ
first [] = 0
first (c ∷ cs) = c

-- The tests before the loop: nothing, or one character that is no digit.
abbrev pub is_short : List ℕ → Bool
is_short [] = true
is_short (c ∷ []) = not (is_numeric c)
is_short (c ∷ d ∷ cs) = false

-- What is left behind a sign.
abbrev pub unsigned : List ℕ → List ℕ
unsigned [] = []
unsigned (c ∷ cs) = if (c == 43) || (c == 45) then cs else c ∷ cs

unfoldable pub integer_loop : ℕ → List ℕ → Bool
integer_loop digits [] = ltb 0 digits
integer_loop digits (c ∷ cs) =
    let rest = integer_loop (digits + 1) cs in if is_numeric c then rest else false

unfoldable pub has_integer : List ℕ → Bool
unfolding integer_loop
has_integer other = if is_short other then false else integer_loop 0 (unsigned other)

unfoldable pub number_loop : ℕ → ℕ → List ℕ → Bool
number_loop digits points [] = ltb 0 digits && ltb points 2
number_loop digits points (c ∷ cs) =
    let more = number_loop (digits + 1) points cs in
    let behind = number_loop digits (points + 1) cs in
    if is_numeric c
    then more
    else if (points == 0) && (c == 46) && not (is_empty cs)
    then behind
    else false

unfoldable pub has_number : List ℕ → Bool
unfolding number_loop
has_number other = if is_short other then false else number_loop 0 0 (unsigned other)

-- `none`: `substr` throws.
unfoldable pub has_decimal : List ℕ → Option Bool
unfolding find has_integer
has_decimal other =
    let f = find other 46 0 in
    let before = take (f.end - 1) other in
    let behind = drop (f.end + 1) other in
    if not f.found
    then some (has_integer other && leb 19 (length other))
    else if is_empty before || not (has_integer before)
    then some false
    else if ltb (length other) (f.end + 1)
    then none
    else if is_empty behind || not (has_integer behind)
    then some false
    else some (leb 19 (length before) || ltb 2 (length behind))
