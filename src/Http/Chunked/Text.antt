-- ===== src/Http/Chunked/Text.antt =====
-- Bodies in chunks as they are written.
use vitex.Common.{
  ℕ, ◌+◌, ◌*◌, ◌^◌, ◌≡◌, ◌≢◌, ◌<◌, ◌≤◌, List, [], ◌∷◌, ◌++◌, false, ◌==◌, Option, none, some,
}
use vitex.Common.Lists.{length}
use vitex.Http.Chunked.{hex_digit}

-- The number that hexadecimal digits stand for, behind one that has been read.
abbrev pub number : ℕ → List ℕ → Option ℕ
number n [] = some n
number n (d ∷ ds) = elim (hex_digit d) [ none ↦ none | some v ↦ number (n * 16 + v) ds ]

-- A line that ends at the next line feed.
abbrev pub IsLine : List ℕ → Type 0
IsLine [] = Unit
IsLine (b ∷ bs) = (b == 10 ≡ false) × IsLine bs

abbrev pub first : List ℕ → ℕ
first [] = 10
first (b ∷ bs) = b

-- The digits of a size, what stands behind them on their line, and the bytes of the chunk.
pub record Chunk : Type 0 where
  pub digits : List ℕ
  pub line : List ℕ
  pub bytes : List ℕ

-- One to sixteen digits, in either case and with any zeros in front, that say how many bytes there
-- are; the rest of the line does not go on with a digit.
pub record IsChunk (k : Chunk) : Type 0 where
  pub counted : number 0 k.digits ≡ some (length k.bytes)
  pub few : length k.digits ≤ 16
  pub some_digit : length k.digits ≢ 0
  pub fits : length k.bytes < 2 ^ 64
  pub is_line : IsLine k.line
  pub no_digit : hex_digit (first k.line) ≡ none

abbrev pub size_line : Chunk → List ℕ → List ℕ
size_line k rest = k.digits ++ (k.line ++ 10 ∷ rest)

-- A line of the trailer: it has a first byte, which ends no line.
abbrev pub IsTrailer : List ℕ → Type 0
IsTrailer [] = ⊥
IsTrailer (b ∷ bs) = (b == 13 ≡ false) × (b == 10 ≡ false) × IsLine bs

abbrev pub AllTrailers : List (List ℕ) → Type 0
AllTrailers [] = Unit
AllTrailers (x ∷ xs) = IsTrailer x × AllTrailers xs

abbrev pub trailer_text : List (List ℕ) → List ℕ → List ℕ
trailer_text [] rest = 13 ∷ 10 ∷ rest
trailer_text (x ∷ xs) rest = x ++ 10 ∷ trailer_text xs rest

-- The chunks with bytes, in order, the chunk without any that ends them, and the trailer.
pub record Body : Type 0 where
  pub chunks : List Chunk
  pub last : Chunk
  pub trailers : List (List ℕ)

abbrev pub AllChunks : List Chunk → Type 0
AllChunks [] = Unit
AllChunks (k ∷ ks) = IsChunk k × (length k.bytes ≢ 0) × AllChunks ks

pub record IsBody (b : Body) : Type 0 where
  pub chunks : AllChunks b.chunks
  pub last : IsChunk b.last
  pub ending : b.last.bytes ≡ []
  pub trailers : AllTrailers b.trailers

abbrev pub chunks_text : List Chunk → List ℕ → List ℕ
chunks_text [] rest = rest
chunks_text (k ∷ ks) rest = k.digits ++ (k.line ++ 10 ∷ (k.bytes ++ 13 ∷ 10 ∷ chunks_text ks rest))

abbrev pub text : Body → List ℕ → List ℕ
text b rest = chunks_text b.chunks (size_line b.last (trailer_text b.trailers rest))

abbrev pub content : List Chunk → List ℕ
content [] = []
content (k ∷ ks) = k.bytes ++ content ks
