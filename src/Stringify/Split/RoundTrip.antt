-- ===== src/Stringify/Split/RoundTrip.antt =====
-- Splitting gives back the pieces that were joined.
use vitex.Common.{
  ℕ, zero, suc, ◌+◌, ◌-◌, ◌≡◌, ◌≢◌, ◌<◌, ◌∙◌, refl, ap, ap₂, sym, arith, List, [], ◌∷◌, ◌++◌, true,
  false, leb, lt→ltb, ◌==◌, some,
}
use vitex.Common.Lists.{
  length, take, drop, length-append, length-drop, take-append_length, drop-append_length,
}
use vitex.Stringify.Find.{settle, search, find}
use vitex.Stringify.Split.{substr, split_loop, split_by, pm_split}
use mathlib.Core.List.{append_assoc}

-- A piece without the separator.
abbrev pub IsPiece : ℕ → List ℕ → Type 0
IsPiece sep [] = Unit
IsPiece sep (c ∷ cs) = (c == sep ≡ false) × IsPiece sep cs

-- The pieces before the last one, which has a character.
abbrev pub AllPieces : ℕ → List (List ℕ) → Type 0
AllPieces sep [] = Unit
AllPieces sep (p ∷ ps) = IsPiece sep p × AllPieces sep ps

abbrev pub join : ℕ → List (List ℕ) → List ℕ → List ℕ
join sep [] last = last
join sep (p ∷ ps) last = p ++ sep ∷ join sep ps last

search_piece :
    (sep size i : ℕ) (p more : List ℕ)
    → IsPiece sep p
    → search (λ c. c == sep) size i (p ++ sep ∷ more)
      ≡ settle (i + length p) (i + length p + 1) true
unfolding search
search_piece sep size i [] more h = ground arith
search_piece sep size i (c ∷ p) more (h, hs) =
    let moved : i + 1 + length p ≡ i + suc (length p) = omega arith in
    rw (h, sym moved) (search_piece sep size (i + 1) p more hs)

search_last :
    (sep size i : ℕ) (p : List ℕ)
    → IsPiece sep p
    → search (λ c. c == sep) size i p ≡ settle size size false
unfolding search
search_last sep size i [] h = refl
search_last sep size i (c ∷ p) (h, hs) = rw h (search_last sep size (i + 1) p hs)

drop_add : {A : Type 0} (a b n : ℕ) (xs : List A) → n ≡ a + b → drop n xs ≡ drop b (drop a xs)
drop_add zero b n xs e = let same : n ≡ b = omega arith in ap (λ (k : ℕ). drop k xs) same
drop_add (suc a) b zero xs e = absurd (omega arith)
drop_add (suc a) zero (suc n) [] e = refl
drop_add (suc a) (suc b) (suc n) [] e = refl
drop_add (suc a) b (suc n) (x ∷ xs) e = drop_add a b n xs (omega arith)

length-join :
    (sep : ℕ) (ps : List (List ℕ)) (last : List ℕ) → length last ≢ 0 → length (join sep ps last) ≢ 0
length-join sep [] last n e = n e
length-join sep (p ∷ ps) last n e = absurd (omega (arith, length-append p (sep ∷ join sep ps last)))

-- What stands behind a piece and its separator.
drop_piece : (p : List ℕ) (sep : ℕ) (more : List ℕ) → drop (length p + 1) (p ++ sep ∷ more) ≡ more
drop_piece p sep more =
    drop_add (length p) 1 (length p + 1) (p ++ sep ∷ more) refl
    ∙ ap (drop 1) (drop-append_length (length p) p (sep ∷ more) refl)

-- One round, where a piece and a separator stand at the offset.
module _ (sep : ℕ) (other p more : List ℕ) (offset : ℕ) (h : IsPiece sep p)
    (e : drop offset other ≡ p ++ sep ∷ more) where
  finds_piece : find other sep offset ≡ settle (offset + length p) (offset + length p + 1) true
  unfolding find
  finds_piece =
      ap (search (λ c. c == sep) (length other) offset) e
      ∙ search_piece sep (length other) offset p more h

  takes_piece : substr other offset (offset + length p - offset) ≡ p
  takes_piece =
      let all : offset + length p - offset ≡ length p = omega arith in
      ap₂ take all e ∙ take-append_length (length p) p (sep ∷ more) refl

  next_offset : drop (offset + length p + 1) other ≡ more
  next_offset =
      drop_add offset (length p + 1) (offset + length p + 1) other (omega arith)
      ∙ ap (drop (length p + 1)) e
      ∙ drop_piece p sep more

  next_in : length more ≢ 0 → offset + length p + 1 < length other
  next_in n = omega (
    arith,
    ap (λ (t : List ℕ). length t) e,
    length-drop offset other,
    length-append p (sep ∷ more),
  )

  round_piece :
      (fuel : ℕ) (out : List (List ℕ))
      → split_loop (suc fuel) (find other sep) other offset out
        ≡ split_loop fuel (find other sep) other (offset + length p + 1) (out ++ p ∷ [])
  unfolding split_loop
  round_piece fuel out = rw (finds_piece, takes_piece) refl

split_pieces :
    (sep : ℕ) (other : List ℕ) (ps : List (List ℕ)) (last : List ℕ) (fuel offset : ℕ)
    → (out : List (List ℕ)) → AllPieces sep ps
    → IsPiece sep last
    → length last ≢ 0
    → drop offset other ≡ join sep ps last
    → offset < length other
    → length (join sep ps last) < fuel
    → split_loop fuel (find other sep) other offset out ≡ some (out ++ (ps ++ last ∷ []))
unfolding split_loop find
split_pieces sep other ps last zero offset out h k n e l f = absurd (omega arith)
split_pieces sep other [] last (suc fuel) offset out h k n e l f =
    rw (e, search_last sep (length other) offset last k, lt→ltb offset (length other) l) refl
split_pieces sep other (p ∷ ps) last (suc fuel) offset out (h, hs) k n e l f =
    round_piece sep other p (join sep ps last) offset h e fuel out
    ∙ split_pieces sep other ps last fuel (offset + length p + 1) (out ++ p ∷ []) hs k n
        (next_offset sep other p (join sep ps last) offset h e)
        (next_in sep other p (join sep ps last) offset h e (length-join sep ps last n))
        (omega (arith, length-append p (sep ∷ join sep ps last)))
    ∙ ap some (append_assoc out (p ∷ []) (ps ++ last ∷ []))

-- Splitting at a character the text that joins pieces with it ends and gives these pieces back,
-- where no piece has the character in it and the last one is not empty; empty pieces before the
-- last come back too.
pub pm_split-join :
    (sep : ℕ) (ps : List (List ℕ)) (last : List ℕ)
    → AllPieces sep ps
    → IsPiece sep last
    → length last ≢ 0
    → pm_split (join sep ps last) sep 0 ≡ some (ps ++ last ∷ [])
unfolding pm_split split_by
pm_split-join sep ps last h k n =
    let some_text : leb (length (join sep ps last)) 0 ≡ false =
      ground (arith, length-join sep ps last n) in
    rw some_text (
      split_pieces sep (join sep ps last) ps last (suc (length (join sep ps last))) 0 [] h k n refl
        (omega (arith, length-join sep ps last n)) (omega arith))
