-- ===== src/Limiter/Slots.antt =====
-- The concurrency cap of internal/ratelimit/limiter.go.
use go_research.Prelude.{
  ℕ, zero, suc, ◌≤◌, Bool, true, false, not, ◌&&◌, ◌||◌, ◌≡◌, ◌↔◌, refl, inl, inr, some, List, [],
  ◌∷◌, ltb, ltb→lt, arith, Bool-cases, if◌then◌else◌,
}
use go_research.Limiter.{
  Limiter, Use, try_use, wait_use, release_use, admitted, refused, blocked, bucket_allows,
  try_acquire, acquire, release, run,
}

-- The taken slots are one for each caller admitted and not released, and at most the capacity.
pub record Capped (limit taken holders : ℕ) : Type 0 where
  pub counted : taken ≡ holders
  pub within : taken ≤ limit

module _ (l : Limiter) (limit : ℕ) (limited : l.capacity ≡ some limit) where
  try_acquire-Capped :
      (allowed : Bool) (taken holders : ℕ)
      → Capped limit taken holders
      → let r = try_acquire l allowed taken in
        Capped limit r.1 (if r.0 then suc holders else holders)
  unfolding try_acquire
  try_acquire-Capped allowed taken holders c = elim (Bool-cases (bucket_allows l.burst allowed)) [
    | inr no_token ↦ rw (try_acquire, no_token) c
    | inl ok ↦ elim (Bool-cases (ltb taken limit)) [
      | inr full ↦ rw (try_acquire, ok, limited, full) c
      | inl free ↦
          rw (try_acquire, ok, limited, free)
            (record { counted = omega (arith, c.counted); within = ltb→lt taken limit free })
    ]
  ]

  acquire-Capped :
      (waited is_done chosen : Bool) (taken holders : ℕ)
      → Capped limit taken holders
      → let r = acquire l waited is_done chosen taken in
        Capped limit r.1
          (elim r.0 [ admitted ↦ suc holders | refused ↦ holders | blocked ↦ holders ])
  unfolding acquire
  acquire-Capped waited is_done chosen taken holders c =
      elim (Bool-cases (bucket_allows l.burst waited)) [
        | inr late ↦ rw (acquire, late) c
        | inl ok ↦ elim (Bool-cases (ltb taken limit && (not is_done || chosen))) [
          | inl free ↦
              rw (acquire, ok, limited, free)
                (record {
                  counted = omega (arith, c.counted);
                  within = ltb→lt taken limit (ground arith);
                })
          | inr full ↦ elim (Bool-cases is_done) [
            | inl gone ↦ rw (acquire, ok, limited, full, gone) c
            | inr stays ↦ rw (acquire, ok, limited, full, stays) c
          ]
        ]
      ]

  -- `Acquire` waits for a slot exactly when the bucket has let the caller pass, all slots are taken,
  -- and the context is not done.
  pub acquire-blocked_iff :
      (waited is_done chosen : Bool) (taken : ℕ)
      → ((acquire l waited is_done chosen taken).0 ≡ blocked)
        ↔ ((bucket_allows l.burst waited ≡ true) × ((limit ≤ taken) × (is_done ≡ false)))
  unfolding acquire
  acquire-blocked_iff waited is_done chosen taken =
      elim (Bool-cases (bucket_allows l.burst waited)) [
        | inr late ↦ rw (acquire, late) (λ h. absurd cc, λ h. absurd cc)
        | inl ok ↦
            rw (acquire, ok, limited) (λ h. (refl, (ground arith, ground arith)), λ h. ground arith)
      ]

  release-Capped :
      (taken holders : ℕ)
      → Capped limit taken (suc holders)
      → Capped limit (release l taken) holders
  unfolding release
  release-Capped taken holders c =
      rw (release, limited)
        (record { counted = omega (arith, c.counted); within = omega (arith, c.within) })

  -- With a concurrency cap, however callers acquire, waiting or not, and release, as long as each
  -- release is of a caller who was admitted, never more callers are in flight than the cap, and
  -- every slot that is taken belongs to one of them.
  pub run-Capped :
      (us : List Use) (taken holders : ℕ)
      → Capped limit taken holders
      → Capped limit (run l us (taken, holders)).0 (run l us (taken, holders)).1
  unfolding run
  run-Capped [] taken holders c = c
  run-Capped (try_use allowed ∷ us) taken holders c =
      run-Capped us _ _ (try_acquire-Capped allowed taken holders c)
  run-Capped (wait_use waited is_done chosen ∷ us) taken holders c =
      run-Capped us _ _ (acquire-Capped waited is_done chosen taken holders c)
  run-Capped (release_use ∷ us) taken zero c = run-Capped us taken zero c
  run-Capped (release_use ∷ us) taken (suc n) c = run-Capped us _ n (release-Capped taken n c)
