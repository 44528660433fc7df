-- ===== src/Stringify/Split/Empty.antt =====
-- Splitting at an empty text.
use vitex.Common.{
  ℕ, zero, suc, ◌+◌, ◌≡◌, ◌<◌, refl, arith, List, [], ◌∷◌, leb, true, false, none, some,
}
use vitex.Common.Lists.{length, drop}
use vitex.Stringify.Find.{settle, strstr, c_string, find_text}
use vitex.Stringify.Split.{split_loop, split_by, pm_split_text}

strstr_empty : (i : ℕ) (cs : List ℕ) → strstr i cs [] ≡ some i
unfolding strstr
strstr_empty i [] = refl
strstr_empty i (c ∷ cs) = refl

finds_nothing :
    (c : ℕ) (cs : List ℕ) (offset : ℕ)
    → offset < length (c ∷ cs)
    → find_text (c ∷ cs) [] offset ≡ settle offset (offset + 0) true
unfolding find_text c_string
finds_nothing c cs offset h =
    let inside : leb (length (c ∷ cs)) offset ≡ false = ground arith in
    rw (inside, strstr_empty offset (c_string (drop offset (c ∷ cs)))) refl

stays :
    (fuel : ℕ) (c : ℕ) (cs : List ℕ) (offset : ℕ) (out : List (List ℕ))
    → offset < length (c ∷ cs)
    → split_loop fuel (find_text (c ∷ cs) []) (c ∷ cs) offset out ≡ none
unfolding split_loop
stays zero c cs offset out h = refl
stays (suc fuel) c cs offset out h =
    rw (finds_nothing c cs offset h) (stays fuel c cs (offset + 0) _ (omega arith))

-- Splitting a text at an empty text, from a place inside of it, does not end: no fuel is enough.
pub pm_split_text-empty :
    (fuel c : ℕ) (cs : List ℕ) (start : ℕ)
    → start < length (c ∷ cs)
    → pm_split_text fuel (c ∷ cs) [] start ≡ none
unfolding pm_split_text split_by
pm_split_text-empty fuel c cs start h =
    let inside : leb (length (c ∷ cs)) start ≡ false = ground arith in
    rw inside (stays fuel c cs start [] h)
