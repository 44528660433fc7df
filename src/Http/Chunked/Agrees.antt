-- ===== src/Http/Chunked/Agrees.antt =====
-- Each case of the `switch` of `parse_decode_chunked` does what the machine does.
use vitex.Common.{
  Option-cases, ℕ, zero, suc, ◌+◌, ◌-◌, ◌*◌, ◌%◌, ◌^◌, ◌≡◌, ◌<◌, ◌≤◌, arith, refl, ap, sym, inl,
  inr, List, [], ◌∷◌, ◌++◌, Bool, true, false, ◌==◌, ltb, ltb→lt, some, Bool-cases,
}
use vitex.Common.Lists.{length, take, drop, length-drop}
use vitex.Http.Chunked.{
  Status, size, ext, body, end, head, middle, Chunked, Result, incomplete, malformed, complete,
  hex_digit, Answer, answer, Turn, leave, again, skip_line, skip_returns, after_end, in_end,
  in_data, after_line, in_ext, in_size, after_middle, in_middle, after_head, in_head,
}
use vitex.Http.Chunked.Machine.{
  IsOpen, machine, prepend, after_byte, read_byte, read_size, read_ext, prepend-append,
}
use mathlib.Core.List.{append-nil}

abbrev pub at_state : Status → ℕ → Bool → ℕ → Chunked
at_state s l t h = record { length = l; state = s; consume_trailer = t; hex_count = h }

-- A turn of the loop agrees with an answer, and what it leaves for the next one is shorter than a
-- bound.
abbrev pub Agrees : ℕ → Turn → Answer → Type 0
Agrees bound (leave r c out rest) a = answer r c out rest ≡ a
Agrees bound (again c out rest) a =
    (prepend out (machine rest c) ≡ a) × IsOpen c × (length rest < bound)

same : (a : Answer) → prepend [] a ≡ a
same a = refl

cut_at :
    (out : List ℕ) (r : Result) (c : Chunked) (rest : List ℕ)
    → answer r c out rest ≡ prepend out (answer r c [] rest)
cut_at out r c rest = ap (λ (o : List ℕ). answer r c o rest) (sym (append-nil out))

less_zero : (n : ℕ) → n - 0 ≡ n
less_zero n = omega arith

less_one : (n : ℕ) → suc n - 1 ≡ n
less_one n = omega arith

less_both : (m n : ℕ) → suc m - suc n ≡ m - n
less_both m n = omega arith

pub not_zero : (n : ℕ) → (suc n == 0) ≡ false
not_zero n = ground arith

module _ (t : Bool) (h : ℕ) where
  pub in_end-Agrees :
      (l : ℕ) (out rest : List ℕ) (bound : ℕ)
      → length rest ≤ bound
      → Agrees bound
          (in_end (at_state end l t h) out rest)
          (prepend out (machine rest (at_state end l t h)))
  unfolding in_end after_end skip_returns machine read_byte
  in_end-Agrees l out [] bound k = cut_at out incomplete (at_state end l t h) []
  in_end-Agrees l out (b ∷ rest) bound k = elim (Bool-cases (b == 13)) [
    | inl e ↦ rw (e, in_end, skip_returns) (in_end-Agrees l out rest bound (omega arith))
    | inr e ↦ elim (Bool-cases (b == 10)) [
      | inl f ↦
          rw (e, f, in_end, skip_returns, after_end)
            (refl, (λ q. absurd (ground arith)), omega arith)
      | inr f ↦
          rw (e, f, in_end, skip_returns, after_end)
            (cut_at out malformed (at_state end l t h) (b ∷ rest))
    ]
  ]

  pub in_middle-Agrees :
      (l : ℕ) (out rest : List ℕ) (bound : ℕ)
      → length rest ≤ bound
      → Agrees bound
          (in_middle (at_state middle l t h) out rest)
          (prepend out (machine rest (at_state middle l t h)))
  unfolding in_middle after_middle skip_line machine read_byte
  in_middle-Agrees l out [] bound k = cut_at out incomplete (at_state middle l t h) []
  in_middle-Agrees l out (b ∷ rest) bound k = elim (Bool-cases (b == 10)) [
    | inl e ↦
        rw (e, in_middle, after_middle, skip_line) (refl, (λ q. absurd (ground arith)), omega arith)
    | inr e ↦ rw (e, in_middle, skip_line) (in_middle-Agrees l out rest bound (omega arith))
  ]

  pub in_head-Agrees :
      (l : ℕ) (out rest : List ℕ) (bound : ℕ)
      → length rest ≤ bound
      → Agrees bound
          (in_head (at_state head l t h) out rest)
          (prepend out (machine rest (at_state head l t h)))
  unfolding in_head after_head skip_returns machine read_byte
  in_head-Agrees l out [] bound k = cut_at out incomplete (at_state head l t h) []
  in_head-Agrees l out (b ∷ rest) bound k = elim (Bool-cases (b == 13)) [
    | inl e ↦ rw (e, in_head, skip_returns) (in_head-Agrees l out rest bound (omega arith))
    | inr e ↦ elim (Bool-cases (b == 10)) [
      | inl f ↦
          rw (e, f, in_head, skip_returns, after_head)
            (cut_at out (complete (length rest)) (at_state head l t h) rest)
      | inr f ↦
          rw (e, f, in_head, skip_returns, after_head)
            (in_middle-Agrees l out rest bound (omega arith))
    ]
  ]

  data_short :
      (l : ℕ) (rest : List ℕ)
      → length rest < suc l
      → machine rest (at_state body (suc l) t h)
        ≡ answer incomplete (at_state body (suc l - length rest) t h) rest []
  unfolding machine read_byte
  data_short l [] k = rw (less_zero (suc l)) refl
  data_short zero (b ∷ rest) k = absurd (omega arith)
  data_short (suc l) (b ∷ rest) k =
      rw (less_one (suc l), not_zero l, less_both (suc l) (length rest))
        (ap (prepend (b ∷ [])) (data_short l rest (omega arith)))

  pub data_long :
      (l : ℕ) (rest : List ℕ)
      → suc l ≤ length rest
      → machine rest (at_state body (suc l) t h)
        ≡ prepend (take (suc l) rest) (machine (drop (suc l) rest) (at_state end 0 t h))
  unfolding machine read_byte
  data_long l [] k = absurd (omega arith)
  data_long zero (b ∷ rest) k = refl
  data_long (suc l) (b ∷ rest) k =
      rw (less_one (suc l), not_zero l) (ap (prepend (b ∷ [])) (data_long l rest (omega arith)))

  pub in_data-Agrees :
      (l : ℕ) (out rest : List ℕ) (bound : ℕ)
      → length rest ≤ bound
      → Agrees bound
          (in_data (at_state body (suc l) t h) out rest)
          (prepend out (machine rest (at_state body (suc l) t h)))
  unfolding in_data
  in_data-Agrees l out rest bound k = elim (Bool-cases (ltb (length rest) (suc l))) [
    | inl e ↦ rw (e, in_data) (ap (prepend out) (sym (data_short l rest (ltb→lt _ _ e))))
    | inr e ↦
        rw
          (
            e,
            in_data,
            data_long l rest (ground (arith, e)),
            sym (
                prepend-append out (take (suc l) rest)
                  (machine (drop (suc l) rest) (at_state end 0 t h))),
          )
          (in_end-Agrees 0 (out ++ take (suc l) rest) (drop (suc l) rest) bound
            (omega (arith, length-drop (suc l) rest)))
  ]

after_line-Agrees :
    (t : Bool) (h l b : ℕ) (out rest : List ℕ) (bound : ℕ)
    → length rest < bound
    → b == 10 ≡ true
    → Agrees bound
        (after_line (at_state ext l t h) out (some rest))
        (prepend out (after_byte b rest (machine rest) (read_ext (at_state ext l t h) b)))
unfolding after_line
after_line-Agrees true h zero b out rest bound k e = rw e (refl, (λ q. absurd (ground arith)), k)
after_line-Agrees false h zero b out rest bound k e =
    rw e (cut_at out (complete (length rest)) (at_state ext 0 false h) rest)
after_line-Agrees t h (suc l) b out rest bound k e =
    rw (e, not_zero l) (in_data-Agrees t h l out rest bound (omega arith))

ext_line :
    (t : Bool) (h l b : ℕ) (out rest : List ℕ) (bound : ℕ)
    → b == 10 ≡ true
    → (a : Answer) → Agrees bound (after_line (at_state ext l t h) out (some rest)) a
    → Agrees bound (in_ext (at_state ext l t h) out (b ∷ rest)) a
unfolding in_ext skip_line
ext_line t h l b out rest bound e a g = rw (in_ext, skip_line, e) g

pub in_ext-Agrees :
    (t : Bool) (h l : ℕ) (out rest : List ℕ) (bound : ℕ)
    → length rest ≤ bound
    → Agrees bound
        (in_ext (at_state ext l t h) out rest)
        (prepend out (machine rest (at_state ext l t h)))
unfolding in_ext skip_line machine read_byte
in_ext-Agrees t h l out [] bound k = cut_at out incomplete (at_state ext l t h) []
in_ext-Agrees t h l out (b ∷ rest) bound k = elim (Bool-cases (b == 10)) [
  | inl e ↦
      ext_line t h l b out rest bound e _ (after_line-Agrees t h l b out rest bound (omega arith) e)
  | inr e ↦ rw (e, in_ext, skip_line) (in_ext-Agrees t h l out rest bound (omega arith))
]

pub in_size-Agrees :
    (t : Bool) (h l : ℕ) (out rest : List ℕ) (bound : ℕ)
    → length rest ≤ bound
    → Agrees bound
        (in_size (at_state size l t h) out rest)
        (prepend out (machine rest (at_state size l t h)))
unfolding in_size machine read_byte read_size
in_size-Agrees t h l out [] bound k = cut_at out incomplete (at_state size l t h) []
in_size-Agrees t h l out (b ∷ rest) bound k = elim (Option-cases (hex_digit b)) [
  | inl e ↦ elim (Bool-cases (h == 0)) [
    | inl f ↦ rw (e, f, in_size, read_size) (cut_at out malformed (at_state size l t h) (b ∷ rest))
    | inr f ↦ rw (e, f, in_size, read_size) (in_ext-Agrees t 0 l out (b ∷ rest) bound k)
  ]
  | inr (v, e) ↦ elim (Bool-cases (h == 16)) [
    | inl f ↦ rw (e, f, in_size, read_size) (cut_at out malformed (at_state size l t h) (b ∷ rest))
    | inr f ↦
        rw (e, f, in_size, read_size)
          (in_size-Agrees t (h + 1) ((l * 16 + v) % 2 ^ 64) out rest bound (omega arith))
  ]
]
