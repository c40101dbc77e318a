-- ===== src/Limiter/Samples.antt =====
-- A limiter with two slots.
use go_research.Prelude.{false, ◌≤◌, true, ◌≡◌, refl, some, List, [], ◌∷◌, arith}
use go_research.Prelude.Int.{pos}
use go_research.Limiter.{
  Limiter, Use, try_use, wait_use, release_use, new_limiter, try_acquire, acquire, release, run,
}
use go_research.Limiter.Slots.{Capped, run-Capped}

abbrev two_slots : Limiter
two_slots = record { burst = some (pos 1); capacity = some 2 }

built : new_limiter (some 0) (pos 0) (pos 2) ≡ two_slots
unfolding new_limiter
built = refl

abbrev uses : List Use
uses =
    try_use true
    ∷ wait_use true false true
    ∷ wait_use true false true
    ∷ release_use
    ∷ try_use false
    ∷ []

one_left : run two_slots uses (0, 0) ≡ (1, 1)
unfolding run try_acquire acquire release
one_left = refl

none_taken : 0 ≤ 2
none_taken = omega arith

run-Capped_example : Capped 2 (run two_slots uses (0, 0)).0 (run two_slots uses (0, 0)).1
run-Capped_example =
    run-Capped two_slots 2 refl uses 0 0 (record { counted = refl; within = none_taken })
