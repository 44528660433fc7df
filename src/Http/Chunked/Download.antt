-- ===== src/Http/Chunked/Download.antt =====
-- The handler by which a client reads a body in chunks from its socket, buffer after buffer.
use vitex.Common.{
  ℕ, ◌≡◌, ◌≢◌, ◌∙◌, refl, ap, sym, List, [], ◌∷◌, ◌++◌, Bool, true, false, if◌then◌else◌, Option,
  some, ◌>>=◌,
}
use vitex.Http.Chunked.{
  Chunked, Result, incomplete, malformed, complete, Answer, answer, parse_decode_chunked,
  prepare_for_chunked_parsing,
}
use vitex.Http.Chunked.Machine.{IsOpen, machine, continue, machine-append, machine-IsOpen}
use vitex.Http.Chunked.Loop.{parse_decode_chunked-machine}
use mathlib.Core.List.{append_assoc, append-nil}

-- What the handler keeps: the parser's state, the body so far, and the result of the last buffer.
pub record Download : Type 0 where
  pub chunked : Chunked
  pub content : List ℕ
  pub subresult : Result

abbrev pub started : Download
started = record { chunked = prepare_for_chunked_parsing; content = []; subresult = malformed }

abbrev pub wants_more : Result → Bool
wants_more incomplete = true
wants_more malformed = false
wants_more (complete n) = false

-- What a buffer adds to the body; with `eat` the body is thrown away.
abbrev pub appended : Bool → Answer → Result → List ℕ → List ℕ
appended eat a malformed content = content
appended eat a incomplete content = if eat then content else content ++ a.decoded
appended eat a (complete n) content = if eat then content else content ++ a.decoded

abbrev pub received : Bool → Download → Answer → Download
received eat d a = record {
  chunked = a.chunked;
  content = appended eat a a.result d.content;
  subresult = a.result;
}

unfoldable pub on_data : Bool → Download → List ℕ → Option Download
unfolding parse_decode_chunked
on_data eat d buffer = parse_decode_chunked d.chunked buffer >>= λ a. some (received eat d a)

-- The buffers are read until the handler wants no more.
unfoldable pub download : Bool → List (List ℕ) → Download → Option Download
unfolding on_data
download eat [] d = some d
download eat (buffer ∷ buffers) d = on_data eat d buffer >>= λ e.
    let rest = download eat buffers e in if wants_more e.subresult then rest else some e

abbrev pub joined : List (List ℕ) → List ℕ
joined [] = []
joined (xs ∷ xss) = xs ++ joined xss

abbrev pub is_complete : Result → Bool
is_complete (complete n) = true
is_complete incomplete = false
is_complete malformed = false

-- A download that got what an answer says.
pub record Got (d e : Download) (a : Answer) : Type 0 where
  pub content : e.content ≡ d.content ++ a.decoded
  pub chunked : e.chunked ≡ a.chunked
  pub over : is_complete e.subresult ≡ is_complete a.result

on_data_lem :
    (eat : Bool) (d : Download) (buffer : List ℕ)
    → IsOpen d.chunked
    → on_data eat d buffer ≡ some (received eat d (machine buffer d.chunked))
unfolding on_data
on_data_lem eat d buffer o = rw (parse_decode_chunked-machine d.chunked buffer o) refl

Reaches : List (List ℕ) → Download → Answer → Type 0
Reaches buffers d a = (e : Download) × (download false buffers d ≡ some e) × Got d e a

download-cons :
    (b : List ℕ) (bs : List (List ℕ)) (d : Download) (a : Answer)
    → on_data false d b ≡ some (received false d a)
    → download false (b ∷ bs) d ≡ (
        if wants_more a.result
        then download false bs (received false d a)
        else some (received false d a))
unfolding download
download-cons b bs d a e = rw e refl

-- One more buffer, which gives an answer.
first_buffer :
    (b : List ℕ) (bs : List (List ℕ)) (d : Download) (r : Result) (c : Chunked) (out rest : List ℕ)
    → on_data false d b ≡ some (received false d (answer r c out rest))
    → (r ≡ incomplete → IsOpen c)
    → (continue r (answer r c out rest) (joined bs)).result ≢ malformed
    → ((e : Download)
        → IsOpen e.chunked
        → is_complete e.subresult ≡ false
        → (machine (joined bs) e.chunked).result ≢ malformed
        → Reaches bs e (machine (joined bs) e.chunked))
    → Reaches (b ∷ bs) d (continue r (answer r c out rest) (joined bs))
unfolding Reaches
first_buffer b bs d incomplete c out rest q o m ih =
    let (f, run, got) = ih (received false d (answer incomplete c out rest)) (o refl) refl m in
    (
      f,
      (download-cons b bs d (answer incomplete c out rest) q ∙ run),
      record {
        content = got.content ∙ append_assoc d.content out (machine (joined bs) c).decoded;
        chunked = got.chunked;
        over = got.over;
      },
    )
first_buffer b bs d malformed c out rest q o m ih = absurd (m refl)
first_buffer b bs d (complete n) c out rest q o m ih = (
  received false d (answer (complete n) c out rest),
  download-cons b bs d (answer (complete n) c out rest) q,
  record { content = refl; chunked = refl; over = refl },
)

-- However a body in chunks is cut into the buffers that arrive, a client that reads them one
-- after the other keeps what the decoding of the whole gives: the same bytes are added to the
-- content, the parser is left in the same state, and it has seen the end exactly when the whole
-- has one. It starts with no chunk that is over but still read and no end seen, and the whole is
-- not malformed.
pub download-joined :
    (buffers : List (List ℕ)) (d : Download)
    → IsOpen d.chunked
    → is_complete d.subresult ≡ false
    → (machine (joined buffers) d.chunked).result ≢ malformed
    → (e : Download) × (download false buffers d ≡ some e)
      × Got d e (machine (joined buffers) d.chunked)
unfolding download Reaches machine
download-joined [] d o f m =
    (d, refl, record { content = sym (append-nil d.content); chunked = refl; over = f })
download-joined (b ∷ bs) d o f m =
    let a = machine b d.chunked in
    rw (machine-append b (joined bs) d.chunked) (
      first_buffer b bs d a.result a.chunked a.decoded a.leftover (on_data_lem false d b o)
        (machine-IsOpen b d.chunked o)
        (λ e. m (ap (λ (x : Answer). x.result) (machine-append b (joined bs) d.chunked) ∙ e))
        (download-joined bs))
