-- ===== src/Stringify/Find.antt =====
-- The searches for a character, from the left and from the right, and for a text.
use vitex.Common.{
  ℕ, zero, suc, ◌+◌, ◌-◌, List, [], ◌∷◌, Bool, true, false, not, leb, ◌==◌, ◌&&◌, ◌||◌,
  if◌then◌else◌, Option, none, some,
}
use vitex.Common.Lists.{length, drop, get_elem?}

-- `text_settle`.
pub record Settle : Type 0 where
  pub start : ℕ
  pub end : ℕ
  pub found : Bool

abbrev pub settle : ℕ → ℕ → Bool → Settle
settle start end found = record { start = start; end = end; found = found }

-- The loop: `i` is the place of the first character that is left.
unfoldable pub search : (ℕ → Bool) → ℕ → ℕ → List ℕ → Settle
search p size i [] = settle size size false
search p size i (c ∷ cs) =
    let rest = search p size (i + 1) cs in if p c then settle i (i + 1) true else rest

abbrev pub contains : ℕ → List ℕ → Bool
contains c [] = false
contains c (k ∷ ks) = (c == k) || contains c ks

unfoldable pub find : List ℕ → ℕ → ℕ → Settle
unfolding search
find other needle offset = search (λ c. c == needle) (length other) offset (drop offset other)

unfoldable pub find_of : List ℕ → List ℕ → ℕ → Settle
unfolding search
find_of other needle offset =
    search (λ c. contains c needle) (length other) offset (drop offset other)

unfoldable pub find_not_of : List ℕ → List ℕ → ℕ → Settle
unfolding search
find_not_of other needle offset =
    search (λ c. not (contains c needle)) (length other) offset (drop offset other)

abbrev pub is_backslash : Option ℕ → Bool
is_backslash none = false
is_backslash (some c) = c == 92

-- The loop of `find_unescaped`, with the character before the first one that is left.
unfoldable pub search_unescaped : ℕ → ℕ → ℕ → Option ℕ → List ℕ → Settle
search_unescaped needle size i before [] = settle size size false
search_unescaped needle size i before (c ∷ cs) =
    let rest = search_unescaped needle size (i + 1) (some c) cs in
    if (c == needle) && not (is_backslash before) then settle i (i + 1) true else rest

unfoldable pub find_unescaped : List ℕ → ℕ → ℕ → Settle
unfolding search_unescaped
find_unescaped other needle offset =
    search_unescaped needle (length other) offset
      (if offset == 0 then none else get_elem? other (offset - 1)) (drop offset other)

-- The loop from the right, over the first `n` characters.
unfoldable pub search_back : (ℕ → Bool) → List ℕ → ℕ → Settle
search_back p other zero = settle (length other) (length other) false
search_back p other (suc i) =
    let rest = search_back p other i in
    elim (get_elem? other i) [ none ↦ rest | some c ↦ if p c then settle i (i + 1) true else rest ]

abbrev pub is_empty : List ℕ → Bool
is_empty [] = true
is_empty (c ∷ cs) = false

unfoldable pub reverse_find : List ℕ → ℕ → ℕ → Settle
unfolding search_back
reverse_find other needle offset =
    if is_empty other || leb (length other) offset
    then settle (length other) (length other) false
    else search_back (λ c. c == needle) other (length other - offset)

unfoldable pub reverse_find_of : List ℕ → List ℕ → ℕ → Settle
unfolding search_back
reverse_find_of other needle offset =
    if is_empty other || leb (length other) offset
    then settle (length other) (length other) false
    else search_back (λ c. contains c needle) other (length other - offset)

-- The loop of `reverse_find_unescaped`, over the first `n` characters.
unfoldable pub search_back_unescaped : ℕ → List ℕ → ℕ → Settle
search_back_unescaped needle other zero = settle (length other) (length other) false
search_back_unescaped needle other (suc i) =
    let rest = search_back_unescaped needle other i in
    let before = if i == 0 then none else get_elem? other (i - 1) in
    elim (get_elem? other i) [
      | none ↦ rest
      | some c ↦ if (c == needle) && not (is_backslash before) then settle i (i + 1) true else rest
    ]

unfoldable pub reverse_find_unescaped : List ℕ → ℕ → ℕ → Settle
unfolding search_back_unescaped
reverse_find_unescaped other needle offset =
    if is_empty other || leb (length other) offset
    then settle (length other) (length other) false
    else search_back_unescaped needle other (length other - offset)

abbrev pub is_prefix : List ℕ → List ℕ → Bool
is_prefix [] cs = true
is_prefix (k ∷ ks) [] = false
is_prefix (k ∷ ks) (c ∷ cs) = (k == c) && is_prefix ks cs

-- What a C string function sees of a text: the bytes before the first byte 0. A view is taken to
-- end where its text does.
unfoldable pub c_string : List ℕ → List ℕ
c_string [] = []
c_string (c ∷ cs) = let rest = c_string cs in if c == 0 then [] else c ∷ rest

-- `strstr` on two C strings, as the place behind `i`.
unfoldable pub strstr : ℕ → List ℕ → List ℕ → Option ℕ
strstr i [] needle = if is_prefix needle [] then some i else none
strstr i (c ∷ cs) needle =
    let rest = strstr (i + 1) cs needle in if is_prefix needle (c ∷ cs) then some i else rest

abbrev pub settled : ℕ → ℕ → Option ℕ → Settle
settled size n none = settle size size false
settled size n (some set) = settle set (set + n) true

unfoldable pub find_text : List ℕ → List ℕ → ℕ → Settle
unfolding strstr c_string
find_text other needle offset =
    if is_empty other || leb (length other) offset
    then settle (length other) (length other) false
    else settled (length other) (length needle)
        (strstr offset (c_string (drop offset other)) (c_string needle))
