-- ===== src/HrmCache/Invariant.antt =====
-- The size is that of the strings in the queue, and within the capacity.
use vitex.Common.{ℕ, ◌+◌, ◌^◌, ◌≡◌, ◌≤◌, ◌<◌, arith, refl, ap, List, [], ◌∷◌, ◌++◌}
use vitex.HrmCache.{
  Entry, HrmCache, shrink_to_fit, rescale, push, pop, Call, pushes, pops, shrinks, rescales, step,
  run,
}
use vitex.HrmCache.Shrinking.{total, IsLongestEnd, whole, cut, shrink_to_fit_lem}

pub record IsSized (c : HrmCache) : Type 0 where
  pub sized : c.size ≡ total c.queue
  pub within : c.size ≤ c.capacity

-- No capacity and string together reach 2^64 bytes.
abbrev pub AllFit : ℕ → List Call → Type 0
AllFit capacity [] = Unit
AllFit capacity (pushes entry ∷ calls) = (capacity + entry.bytes < 2 ^ 64) × AllFit capacity calls
AllFit capacity (pops ∷ calls) = AllFit capacity calls
AllFit capacity (shrinks ∷ calls) = AllFit capacity calls
AllFit capacity (rescales max_bytes_storage ∷ calls) = AllFit max_bytes_storage calls

longest-le :
    (capacity : ℕ) (queue kept : List Entry)
    → IsLongestEnd capacity queue kept
    → total kept ≤ capacity
longest-le capacity queue kept (whole _ fits) = fits
longest-le capacity queue kept (cut freed last _ fits over) = fits

shrink_to_fit-IsSized : (c : HrmCache) → c.size ≡ total c.queue → IsSized (shrink_to_fit c)
unfolding shrink_to_fit
shrink_to_fit-IsSized c e =
    let (sized, longest) = shrink_to_fit_lem c e in
    record { sized = sized; within = omega (arith, sized, longest-le c.capacity c.queue _ longest) }

total-append : (xs ys : List Entry) → total (xs ++ ys) ≡ total xs + total ys
total-append [] ys = omega arith
total-append (x ∷ xs) ys = omega (arith, total-append xs ys)

pop-IsSized : (c : HrmCache) → IsSized c → IsSized (pop c).1
unfolding pop
pop-IsSized c v = go c.queue refl
  where
    go : (q : List Entry) → c.queue ≡ q → IsSized (pop c).1
    go [] e = rw e (record { sized = omega (arith, v.sized, ap total e); within = v.within })
    go (item ∷ queue) e =
        rw e
          (record { sized = omega (arith, v.sized, ap total e); within = omega (arith, v.within) })

-- Any sequence of calls of the cache of strings keeps its size equal to the bytes of the strings
-- that it holds, and within its capacity, where no capacity and pushed string together reach 2^64
-- bytes.
pub run-IsSized :
    (c : HrmCache) (calls : List Call) → IsSized c → AllFit c.capacity calls → IsSized (run c calls)
unfolding run step push rescale shrink_to_fit pop
run-IsSized c [] v h = v
run-IsSized c (pushes entry ∷ calls) v (h, hs) =
    run-IsSized _ calls
      (shrink_to_fit-IsSized _
        (omega (arith, v.sized, v.within, total-append c.queue (entry ∷ []))))
      hs
run-IsSized c (pops ∷ calls) v h =
    run-IsSized (pop c).1 calls (pop-IsSized c v) (same_capacity c.queue refl)
  where
    same_capacity : (q : List Entry) → c.queue ≡ q → AllFit (pop c).1.capacity calls
    same_capacity [] e = rw e h
    same_capacity (item ∷ queue) e = rw e h
run-IsSized c (shrinks ∷ calls) v h = run-IsSized _ calls (shrink_to_fit-IsSized c v.sized) h
run-IsSized c (rescales max_bytes_storage ∷ calls) v h =
    run-IsSized _ calls (shrink_to_fit-IsSized (record c { capacity = max_bytes_storage }) v.sized)
      h
