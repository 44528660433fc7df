-- ===== src/HrmCache/Examples.antt =====
-- Runs of the theorems on the cache of strings.
use vitex.Common.{◌≡◌, refl, arith, List, [], ◌∷◌}
use vitex.HrmCache.{HrmCache, create, shrink_to_fit, Call, pushes, pops, rescales, run}
use vitex.HrmCache.Shrinking.{total, IsLongestEnd, shrink_to_fit_lem}
use vitex.HrmCache.Invariant.{IsSized, run-IsSized}

-- The string `n` with room for `b` bytes.
abbrev calls : List Call
calls =
    pushes (record { name = 1; bytes = 60 })
    ∷ pushes (record { name = 2; bytes = 30 })
    ∷ pushes (record { name = 3; bytes = 20 })
    ∷ pops
    ∷ rescales 10
    ∷ []

abbrev overfull : HrmCache
overfull = record {
  queue = record { name = 1; bytes = 60 } ∷ record { name = 2; bytes = 30 } ∷ [];
  capacity = 40;
  size = 90;
}

run-IsSized_example : IsSized (run (create 100) calls)
run-IsSized_example =
    run-IsSized (create 100) calls (record { sized = refl; within = omega arith })
      (omega arith, (omega arith, (omega arith, tt)))

shrink_to_fit_example :
    ((shrink_to_fit overfull).size ≡ total (shrink_to_fit overfull).queue)
    × IsLongestEnd 40 overfull.queue (shrink_to_fit overfull).queue
shrink_to_fit_example = shrink_to_fit_lem overfull refl

left_test : (shrink_to_fit overfull).queue ≡ record { name = 2; bytes = 30 } ∷ []
unfolding shrink_to_fit
left_test = refl
