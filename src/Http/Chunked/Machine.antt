-- ===== src/Http/Chunked/Machine.antt =====
-- What a body in chunks means, independently of buffers: a machine that reads one byte at a time.
use vitex.Common.{
  ℕ, ◌+◌, ◌-◌, ◌*◌, ◌%◌, ◌^◌, ◌≡◌, ◌≢◌, arith, ◌∙◌, refl, ap, sym, List, [], ◌∷◌, ◌++◌, ◌==◌,
  if◌then◌else◌, none, some,
}
use vitex.Common.Lists.{length}
use vitex.Http.Chunked.{
  Status, size, ext, body, end, head, middle, Chunked, Result, incomplete, malformed, complete,
  hex_digit, Answer, answer,
}
use mathlib.Core.List.{append_assoc}

-- A byte is taken, with what it adds to the body, refused, or the last of the body.
pub data Taken : Type 0 where
  emits : Chunked → List ℕ → Taken
  rejects ends : Chunked → Taken

abbrev pub read_ext : Chunked → ℕ → Taken
read_ext c b =
    if b == 10
    then if c.length == 0
      then if c.consume_trailer then emits (record c { state = head }) [] else ends c
      else emits (record c { state = body }) []
    else emits c []

unfoldable pub read_size : Chunked → ℕ → Taken
unfolding hex_digit
read_size c b = elim (hex_digit b) [
  | none ↦
      if c.hex_count == 0 then rejects c else read_ext (record c { hex_count = 0; state = ext }) b
  | some v ↦
      if c.hex_count == 16
      then rejects c
      else emits (record c { length = (c.length * 16 + v) % 2 ^ 64; hex_count = c.hex_count + 1 })
          []
]

unfoldable pub read_byte : Status → Chunked → ℕ → Taken
unfolding read_size
read_byte size c b = read_size c b
read_byte ext c b = read_ext c b
read_byte body c b =
    emits (record c { length = c.length - 1; state = if c.length - 1 == 0 then end else body })
      (b ∷ [])
read_byte end c b =
    if b == 13
    then emits c []
    else if b == 10
    then emits (record c { state = size }) []
    else rejects c
read_byte head c b =
    if b == 13
    then emits c []
    else if b == 10
    then ends c
    else emits (record c { state = middle }) []
read_byte middle c b = if b == 10 then emits (record c { state = head }) [] else emits c []

abbrev pub prepend : List ℕ → Answer → Answer
prepend out a = record a { decoded = out ++ a.decoded }

abbrev pub after_byte : ℕ → List ℕ → (Chunked → Answer) → Taken → Answer
after_byte b bs run (emits c out) = prepend out (run c)
after_byte b bs run (rejects c) = answer malformed c [] (b ∷ bs)
after_byte b bs run (ends c) = answer (complete (length bs)) c [] bs

unfoldable pub machine : List ℕ → Chunked → Answer
unfolding read_byte
machine [] c = answer incomplete c [] []
machine (b ∷ bs) c = after_byte b bs (machine bs) (read_byte c.state c b)

-- Reading on where an answer is not complete.
abbrev pub continue : Result → Answer → List ℕ → Answer
continue incomplete a ys = prepend a.decoded (machine ys a.chunked)
continue malformed a ys = record a { leftover = a.leftover ++ ys }
continue (complete n) a ys = record a {
  result = complete (length (a.leftover ++ ys));
  leftover = a.leftover ++ ys;
}

pub prepend-append :
    (xs ys : List ℕ) (a : Answer) → prepend (xs ++ ys) a ≡ prepend xs (prepend ys a)
prepend-append xs ys a =
    ap (λ (t : List ℕ). record a { decoded = t }) (append_assoc xs ys a.decoded)

continue-prepend :
    (r : Result) (out : List ℕ) (a : Answer) (ys : List ℕ)
    → continue r (prepend out a) ys ≡ prepend out (continue r a ys)
continue-prepend incomplete out a ys = prepend-append out a.decoded (machine ys a.chunked)
continue-prepend malformed out a ys = refl
continue-prepend (complete n) out a ys = refl

after_byte-continue :
    (b : ℕ) (xs ys : List ℕ) (t : Taken)
    → ((d : Chunked) → machine (xs ++ ys) d ≡ continue (machine xs d).result (machine xs d) ys)
    → after_byte b (xs ++ ys) (machine (xs ++ ys)) t
      ≡ continue (after_byte b xs (machine xs) t).result (after_byte b xs (machine xs) t) ys
after_byte-continue b xs ys (emits d out) ih =
    ap (prepend out) (ih d) ∙ sym (continue-prepend (machine xs d).result out (machine xs d) ys)
after_byte-continue b xs ys (rejects d) ih = refl
after_byte-continue b xs ys (ends d) ih = refl

-- What the machine makes of a text in two parts.
pub machine-append :
    (xs ys : List ℕ) (c : Chunked)
    → machine (xs ++ ys) c ≡ continue (machine xs c).result (machine xs c) ys
unfolding machine
machine-append [] ys c = refl
machine-append (b ∷ xs) ys c =
    after_byte-continue b xs ys (read_byte c.state c b) (machine-append xs ys)

-- A chunk is not read when it is over.
abbrev pub IsOpen : Chunked → Type 0
IsOpen c = c.state ≡ body → c.length ≢ 0

abbrev StaysOpen : Taken → Type 0
StaysOpen (emits c out) = IsOpen c
StaysOpen (rejects c) = Unit
StaysOpen (ends c) = Unit

read_ext-StaysOpen : (c : Chunked) (b : ℕ) → c.state ≡ ext → StaysOpen (read_ext c b)
read_ext-StaysOpen c b e = ground arith

read_byte-StaysOpen :
    (s : Status) (c : Chunked) (b : ℕ) → c.state ≡ s → IsOpen c → StaysOpen (read_byte s c b)
unfolding read_byte read_size
read_byte-StaysOpen size c b e o = ground arith
read_byte-StaysOpen ext c b e o = read_ext-StaysOpen c b e
read_byte-StaysOpen body c b e o = ground arith
read_byte-StaysOpen end c b e o = ground arith
read_byte-StaysOpen head c b e o = ground arith
read_byte-StaysOpen middle c b e o = ground arith

IsOpen-after_byte :
    (b : ℕ) (bs : List ℕ) (t : Taken)
    → StaysOpen t
    → ((c : Chunked)
        → IsOpen c
        → (machine bs c).result ≡ incomplete
        → IsOpen (machine bs c).chunked)
    → (after_byte b bs (machine bs) t).result ≡ incomplete
    → IsOpen (after_byte b bs (machine bs) t).chunked
IsOpen-after_byte b bs (emits c out) o ih e = ih c o e
IsOpen-after_byte b bs (rejects c) o ih e = absurd (ground arith)
IsOpen-after_byte b bs (ends c) o ih e = absurd (ground arith)

pub machine-IsOpen :
    (bs : List ℕ) (c : Chunked)
    → IsOpen c
    → (machine bs c).result ≡ incomplete
    → IsOpen (machine bs c).chunked
unfolding machine
machine-IsOpen [] c o e = o
machine-IsOpen (b ∷ bs) c o e =
    IsOpen-after_byte b bs (read_byte c.state c b) (read_byte-StaysOpen c.state c b refl o)
      (machine-IsOpen bs) e
