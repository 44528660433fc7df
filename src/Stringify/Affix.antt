-- ===== src/Stringify/Affix.antt =====
-- The tests for what stands at the ends of a text.
use vitex.Common.{
  ℕ, ◌-◌, List, [], ◌∷◌, Bool, true, false, not, ltb, leb, ◌==◌, ◌&&◌, ◌||◌, if◌then◌else◌, Option,
  none, some,
}
use vitex.Common.Lists.{length, drop, get_elem?}
use vitex.Stringify.Find.{contains, is_empty, is_prefix}

-- The characters from `offset` on of both texts are compared, each with that at its own place.
unfoldable pub starts_with : List ℕ → List ℕ → ℕ → Bool
starts_with other value offset =
    if ltb (length other) (length value)
    then false
    else is_prefix (drop offset value) (drop offset other)

abbrev pub one_of : Option ℕ → List ℕ → Bool
one_of none value = false
one_of (some c) value = contains c value

unfoldable pub starts_of : List ℕ → List ℕ → ℕ → Bool
starts_of other value offset = one_of (get_elem? other offset) value

unfoldable pub starts_not_of : List ℕ → List ℕ → ℕ → Bool
starts_not_of other value offset =
    if leb (length other) offset then false else not (one_of (get_elem? other offset) value)

abbrev pub equals : List ℕ → List ℕ → Bool
equals [] [] = true
equals [] (k ∷ ks) = false
equals (c ∷ cs) [] = false
equals (c ∷ cs) (k ∷ ks) = (c == k) && equals cs ks

unfoldable pub ends_with : List ℕ → List ℕ → Bool
ends_with other value =
    if is_empty other || ltb (length other) (length value)
    then false
    else equals (drop (length other - length value) other) value

abbrev pub back : List ℕ → Option ℕ
back [] = none
back (c ∷ []) = some c
back (c ∷ d ∷ cs) = back (d ∷ cs)

unfoldable pub ends_of : List ℕ → List ℕ → Bool
ends_of other value = one_of (back other) value

unfoldable pub ends_not_of : List ℕ → List ℕ → Bool
ends_not_of other value = not (one_of (back other) value)

unfoldable pub consists_of : List ℕ → List ℕ → Bool
consists_of [] alphabet = true
consists_of (c ∷ cs) alphabet = contains c alphabet && consists_of cs alphabet
