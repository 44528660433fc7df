-- ===== src/HrmCache.antt =====
-- `hrm_cache` of src/vitex/network/http.cpp: strings that are kept for reuse, the oldest first, and
-- the bytes that they hold. The lock makes each operation one step.
pub mod Shrinking
pub mod Invariant
mod Examples
use vitex.Common.{
  ℕ, zero, suc, ◌+◌, ◌-◌, ◌%◌, ◌^◌, List, [], ◌∷◌, ◌++◌, Bool, true, false, ltb, min, Option, none,
  some, if◌then◌else◌,
}

-- A string: the number that names it and the bytes that it has room for.
pub record Entry : Type 0 where
  pub name : ℕ
  pub bytes : ℕ

pub record HrmCache : Type 0 where
  pub queue : List Entry
  pub capacity : ℕ  -- size_t
  pub size : ℕ  -- size_t

abbrev pub create : ℕ → HrmCache
create max_bytes_storage = record { queue = []; capacity = max_bytes_storage; size = 0 }

-- The loop of `shrink_to_fit` on the queue and the size.
unfoldable pub shrink_queue : ℕ → List Entry → ℕ → List Entry × ℕ
shrink_queue capacity [] size = ([], size)
shrink_queue capacity (item ∷ queue) size =
    let rest = shrink_queue capacity queue (size - min size item.bytes) in
    if ltb capacity size then rest else (item ∷ queue, size)

unfoldable pub shrink_to_fit : HrmCache → HrmCache
unfolding shrink_queue
shrink_to_fit c =
    let r = shrink_queue c.capacity c.queue c.size in record c { queue = r.0; size = r.1 }

unfoldable pub rescale : HrmCache → ℕ → HrmCache
unfolding shrink_to_fit
rescale c max_bytes_storage = shrink_to_fit (record c { capacity = max_bytes_storage })

unfoldable pub push : HrmCache → Entry → HrmCache
unfolding shrink_to_fit
push c entry =
    shrink_to_fit
      (record c { size = (c.size + entry.bytes) % 2 ^ 64; queue = c.queue ++ entry ∷ [] })

-- `none`: a new string is made.
unfoldable pub pop : HrmCache → Option Entry × HrmCache
pop c = elim c.queue [
  | [] ↦ (none, c)
  | item ∷ queue ↦ (some item, record c { queue = queue; size = c.size - min c.size item.bytes })
]

pub data Call : Type 0 where
  pushes : Entry → Call
  pops shrinks : Call
  rescales : ℕ → Call

unfoldable pub step : HrmCache → Call → HrmCache
unfolding push pop rescale shrink_to_fit
step c (pushes entry) = push c entry
step c pops = (pop c).1
step c shrinks = shrink_to_fit c
step c (rescales max_bytes_storage) = rescale c max_bytes_storage

unfoldable pub run : HrmCache → List Call → HrmCache
unfolding step
run c [] = c
run c (call ∷ calls) = run (step c call) calls
