-- ===== src/Limiter.antt =====
-- internal/ratelimit/limiter.go. The token bucket of golang.org/x/time/rate is a parameter: what its
-- Allow answers. The semaphore is the number of slots taken of a buffered channel. A burst and a
-- rate are whole numbers here.
mod Samples
pub mod Slots
use go_research.Prelude.{
  ℕ, zero, suc, ◌+◌, ◌-◌, Bool, true, false, not, ◌&&◌, ◌||◌, Option, none, some, List, [], ◌∷◌,
  ltb, if◌then◌else◌,
}
use go_research.Prelude.Int.{ℤ, pos, negsuc, ltbℤ}

-- The burst of the bucket, or none for no rate cap; the capacity of the channel, or none for no
-- concurrency cap.
pub record Limiter : Type 0 where
  pub burst : Option ℤ
  pub capacity : Option ℕ

abbrev slots : ℤ → Option ℕ
slots (pos zero) = none
slots (pos (suc n)) = some (suc n)
slots (negsuc n) = none

-- `New`, with the rate rounded down to whole requests a second: above 0 and below 1 it is `some 0`,
-- and none stands for a rate that is not positive.
unfoldable pub new_limiter : Option ℕ → ℤ → ℤ → Limiter
new_limiter none burst max_in_flight = record { burst = none; capacity = slots max_in_flight }
new_limiter (some qps) burst max_in_flight =
    let whole = if ltbℤ (pos qps) (pos 1) then pos 1 else pos qps in
    let chosen = if ltbℤ burst (pos 1) then whole else burst in
    record { burst = some chosen; capacity = slots max_in_flight }

abbrev pub bucket_allows : Option ℤ → (allowed : Bool) → Bool
bucket_allows none allowed = true
bucket_allows (some burst) allowed = allowed

abbrev pub take_slot : Option ℕ → ℕ → Bool × ℕ
take_slot none taken = (true, taken)
take_slot (some slot_count) taken =
    if ltb taken slot_count then (true, suc taken) else (false, taken)

-- `TryAcquire`: whether the caller is admitted, and the slots taken then. `allowed` is what the bucket
-- answers, if there is one.
unfoldable pub try_acquire : Limiter → (allowed : Bool) → ℕ → Bool × ℕ
try_acquire l allowed taken =
    if bucket_allows l.burst allowed then take_slot l.capacity taken else (false, taken)

-- What `Acquire` has come to: a release, an error, or it still waits for a slot.
pub data Acquired : Type 0 where
  admitted refused blocked : Acquired

-- The select of `Acquire`, with `chosen` for the case that is taken when both are ready.
abbrev pub wait_slot : Option ℕ → (is_done chosen : Bool) → ℕ → Acquired × ℕ
wait_slot none is_done chosen taken = (admitted, taken)
wait_slot (some slot_count) is_done chosen taken =
    if ltb taken slot_count && (not is_done || chosen)
    then (admitted, suc taken)
    else if is_done
    then (refused, taken)
    else (blocked, taken)

-- `Acquire`, and the slots taken then. `waited` is whether the bucket's Wait, if there is one, returns no
-- error, and `is_done` whether the context is done.
unfoldable pub acquire : Limiter → (waited is_done chosen : Bool) → ℕ → Acquired × ℕ
acquire l waited is_done chosen taken =
    if bucket_allows l.burst waited
    then wait_slot l.capacity is_done chosen taken
    else (refused, taken)

-- The release of a caller who was admitted: it takes one value out of the channel, if one is there.
unfoldable pub release : Limiter → ℕ → ℕ
release l taken = elim l.capacity [ none ↦ taken | some _ ↦ taken - 1 ]

-- What callers do, one after the other: TryAcquire, Acquire, or the release.
pub data Use : Type 0 where
  try_use : (allowed : Bool) → Use
  wait_use : (waited is_done chosen : Bool) → Use
  release_use : Use

-- The slots taken after some uses, and how many callers were admitted and not released yet; a
-- release without such a caller breaks the contract and is left out.
pub run : Limiter → List Use → ℕ × ℕ → ℕ × ℕ
unfolding try_acquire acquire release
run l [] x = x
run l (try_use allowed ∷ us) (taken, holders) =
    let (ok, taken') = try_acquire l allowed taken in
    run l us (taken', (if ok then suc holders else holders))
run l (wait_use waited is_done chosen ∷ us) (taken, holders) =
    let (r, taken') = acquire l waited is_done chosen taken in
    run l us (taken', elim r [ admitted ↦ suc holders | refused ↦ holders | blocked ↦ holders ])
run l (release_use ∷ us) (taken, holders) = elim holders [
  | zero ↦ run l us (taken, zero)
  | suc n ↦ run l us (release l taken, n)
]
