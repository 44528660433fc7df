-- ===== src/HrmCache/Shrinking.antt =====
-- What `shrink_to_fit` takes away.
use vitex.Common.{
  ℕ, ◌+◌, ◌-◌, ◌≡◌, ◌≤◌, ◌<◌, arith, refl, List, [], ◌∷◌, ◌++◌, Bool-cases, inl, inr, ltb, ltb→lt,
  min,
}
use vitex.HrmCache.{Entry, HrmCache, shrink_queue, shrink_to_fit}

abbrev pub total : List Entry → ℕ
total [] = 0
total (e ∷ es) = e.bytes + total es

-- `kept` is the longest end of a queue that fits: it comes after what was freed, and with the last
-- string that was freed it would not fit.
pub data IsLongestEnd (capacity : ℕ) : List Entry → List Entry → Type 0 where
  whole : (queue : List Entry) → total queue ≤ capacity → IsLongestEnd capacity queue queue
  cut :
      (freed : List Entry) (last : Entry) (kept : List Entry)
      → total kept ≤ capacity
      → capacity < total (last ∷ kept)
      → IsLongestEnd capacity (freed ++ last ∷ kept) kept

more_freed :
    (capacity : ℕ) (item : Entry) (queue kept : List Entry)
    → capacity < total (item ∷ queue)
    → IsLongestEnd capacity queue kept
    → IsLongestEnd capacity (item ∷ queue) kept
more_freed capacity item queue kept h (whole _ fits) = cut [] item queue fits h
more_freed capacity item queue kept h (cut freed last _ fits over) =
    cut (item ∷ freed) last kept fits over

pub shrink_queue_lem :
    (capacity : ℕ) (queue : List Entry)
    → ((shrink_queue capacity queue (total queue)).1
        ≡ total (shrink_queue capacity queue (total queue)).0)
      × IsLongestEnd capacity queue (shrink_queue capacity queue (total queue)).0
unfolding shrink_queue
shrink_queue_lem capacity [] = (refl, whole [] (omega arith))
shrink_queue_lem capacity (item ∷ queue) = elim (Bool-cases (ltb capacity (total (item ∷ queue)))) [
  | inl e ↦
      let left : total (item ∷ queue) - min (total (item ∷ queue)) item.bytes ≡ total queue =
        omega arith in
      let (sized, longest) = shrink_queue_lem capacity queue in
      rw (e, left) (sized, more_freed capacity item queue _ (ltb→lt capacity _ e) longest)
  | inr e ↦ rw e (refl, whole (item ∷ queue) (ground (arith, e)))
]

-- Where the size is that of the strings held, shrink_to_fit keeps the longest end of the queue
-- that fits into the capacity, so that it frees the oldest strings and no more of them than
-- needed, and the size is that of the strings kept.
pub shrink_to_fit_lem :
    (c : HrmCache)
    → c.size ≡ total c.queue
    → ((shrink_to_fit c).size ≡ total (shrink_to_fit c).queue)
      × IsLongestEnd c.capacity c.queue (shrink_to_fit c).queue
unfolding shrink_to_fit
shrink_to_fit_lem c sized = rw sized (shrink_queue_lem c.capacity c.queue)
