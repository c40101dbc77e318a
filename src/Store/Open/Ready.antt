-- ===== src/Store/Open/Ready.antt =====
-- When `Open` of internal/store/postgres/postgres.go gives a store.
use go_research.Prelude.{
  ℕ, zero, suc, ◌+◌, ◌≤◌, ◌<◌, Bool, true, false, ◌==◌, ◌≡◌, ◌↔◌, refl, sym, ap, ◌∙◌, ◌⊎◌, inl, inr,
  Option, none, some, List, [], ◌∷◌, ◌++◌, map, Str, length, Bool-cases, Option-cases, arith,
  append-nil, subst,
}
use mathlib.Core.List.{Perm}
use go_research.Store.Ordered.{order_by, order_by-perm, order_by-IsOrdered, IsOrdered}
use go_research.Store.Open.{
  OpenError, Entry, connect_attempts, ping_loop, names_of, sorts_before, apply_all, migrate, Opened,
  open_store,
}

sorts_before_total : (s t : Str) → sorts_before s t ≡ false → sorts_before t s ≡ true
unfolding sorts_before
sorts_before_total [] t h = absurd cc
sorts_before_total (b ∷ s) [] h = refl
sorts_before_total (b ∷ s) (c ∷ t) h = ground (arith, sorts_before_total s t)

sorts_before_trans :
    (s t u : Str) → sorts_before s t ≡ true → sorts_before t u ≡ true → sorts_before s u ≡ true
unfolding sorts_before
sorts_before_trans [] t u h k = refl
sorts_before_trans (b ∷ s) [] u h k = absurd cc
sorts_before_trans (b ∷ s) (c ∷ t) [] h k = absurd cc
sorts_before_trans (b ∷ s) (c ∷ t) (d ∷ u) h k = ground (arith, sorts_before_trans s t u)

module _ (pings is_done : ℕ → Bool) where
  -- A ping succeeds, at the latest the last, and until then the context is not done.
  pub record Reached (attempt : ℕ) : Type 0 where
    pub last : ℕ
    pub from : attempt ≤ last
    pub within : last ≤ connect_attempts
    pub answered : pings last ≡ true
    pub before : (n : ℕ) → attempt ≤ n → n < last → (pings n ≡ false) × (is_done n ≡ false)

  ping_loop-Reached :
      (fuel attempt : ℕ)
      → fuel + attempt ≡ 21
      → ping_loop pings is_done fuel attempt ≡ none
      → (fuel ≡ 0) ⊎ Reached attempt
  unfolding ping_loop
  ping_loop-Reached zero attempt enough h = inl refl
  ping_loop-Reached (suc fuel) attempt enough h = elim (Bool-cases (pings attempt)) [
    | inl good ↦ inr (record {
      last = attempt;
      from = omega arith;
      within = omega arith;
      answered = good;
      before = λ n low high. absurd (omega arith);
    })
    | inr bad ↦ elim (Bool-cases (attempt == connect_attempts)) [
      | inl final ↦ absurd (let e = rw (bad, final) at h in cc)
      | inr more ↦ elim (Bool-cases (is_done attempt)) [
        | inl gone ↦ absurd (let e = rw (bad, more, gone) at h in cc)
        | inr stays ↦
            elim (ping_loop-Reached fuel (attempt + 1) (omega arith) (rw (bad, more, stays) at h)) [
              | inl empty ↦ absurd (ground arith)
              | inr later ↦ inr (record {
                last = later.last;
                from = omega (arith, later.from);
                within = later.within;
                answered = later.answered;
                before = λ n low high. elim (Bool-cases (n == attempt)) [
                  | inl same ↦
                      let e : attempt ≡ n = ground arith in
                      subst (λ m. (pings m ≡ false) × (is_done m ≡ false)) e (bad, stays)
                  | inr other ↦ later.before n (ground arith) high
                ];
              })
            ]
      ]
    ]
  ]

  Reached-ping_loop :
      (fuel attempt : ℕ)
      → fuel + attempt ≡ 21
      → Reached attempt
      → ping_loop pings is_done fuel attempt ≡ none
  unfolding ping_loop
  Reached-ping_loop zero attempt enough r = refl
  Reached-ping_loop (suc fuel) attempt enough r = elim (Bool-cases (pings attempt)) [
    | inl good ↦ rw (ping_loop, good) refl
    | inr bad ↦ elim (Bool-cases (attempt == r.last)) [
      | inl same ↦ let e : attempt ≡ r.last = ground arith in absurd (let a = r.answered in cc)
      | inr other ↦
          let below : attempt < r.last = ground (arith, r.from) in
          let more : (attempt == connect_attempts) ≡ false = ground (arith, r.within) in
          let now : attempt ≤ attempt = omega arith in
          rw (ping_loop, bad, more, (r.before attempt now below).1)
            (Reached-ping_loop fuel (attempt + 1) (omega arith) (record {
              last = r.last;
              from = omega arith;
              within = r.within;
              answered = r.answered;
              before = λ n low high. r.before n (omega arith) high;
            }))
    ]
  ]

  -- The pings end without an error exactly when one of the 20 succeeds, and the context is not done
  -- after any ping before the first that does.
  pub ping_loop-eq-none_iff : (ping_loop pings is_done connect_attempts 1 ≡ none) ↔ Reached 1
  ping_loop-eq-none_iff = (
    λ h. elim (ping_loop-Reached 20 1 refl h) [ inl e ↦ absurd cc | inr r ↦ r ],
    λ r. Reached-ping_loop 20 1 refl r,
  )

map-some-append :
    (xs : List Str) (y : Str) (zs : List (Option Str))
    → map some (xs ++ y ∷ []) ++ zs ≡ map some xs ++ some y ∷ zs
map-some-append [] y zs = refl
map-some-append (x ∷ xs) y zs = ap (◌∷◌ (some x)) (map-some-append xs y zs)

module _ (read_file : Str → Option Str) (runs : ℕ → Bool) where
  -- Without an error, all migrations have been run, in order.
  apply_all-none :
      (names applied : List Str)
      → (apply_all read_file runs names applied).0 ≡ none
      → map some (apply_all read_file runs names applied).1
        ≡ map some applied ++ map read_file names
  unfolding apply_all
  apply_all-none [] applied h = sym (append-nil (map some applied))
  apply_all-none (name ∷ names) applied h = elim (Option-cases (read_file name)) [
    | inl missing ↦ absurd (let e = rw (apply_all, missing) at h in cc)
    | inr (body, found) ↦ elim (Bool-cases (runs (length applied))) [
      | inr bad ↦ absurd (let e = rw (apply_all, found, bad) at h in cc)
      | inl good ↦
          let rest =
            apply_all-none names (applied ++ body ∷ []) (rw (apply_all, found, good) at h) in
          rw (apply_all, found, good) (rest ∙ map-some-append applied body (map read_file names))
    ]
  ]

  -- The migrations that have been run, when all have been: those of the directory, by name.
  pub record Migrated (entries : Option (List Entry)) (applied : List Str) : Type 0 where
    pub listed : List Entry
    pub there : entries ≡ some listed
    pub names : List Str
    pub all_names : Perm names (names_of listed)
    pub order : IsOrdered sorts_before names
    pub bodies : map some applied ≡ map read_file names

  migrate-Migrated :
      (entries : Option (List Entry))
      → (migrate read_file runs entries).0 ≡ none
      → Migrated entries (migrate read_file runs entries).1
  unfolding migrate
  migrate-Migrated none h = absurd cc
  migrate-Migrated (some listed) h = record {
    listed = listed;
    there = refl;
    names = order_by sorts_before (names_of listed);
    all_names = order_by-perm sorts_before (names_of listed);
    order = order_by-IsOrdered sorts_before sorts_before_total sorts_before_trans (names_of listed);
    bodies = apply_all-none (order_by sorts_before (names_of listed)) [] h;
  }

  module _ (connects : Bool) (pings is_done : ℕ → Bool) (entries : Option (List Entry)) where
    -- There is a store.
    pub record Ready (o : Opened read_file runs) : Type 0 where
      pub no_error : o.err ≡ none
      pub connected : connects ≡ true
      pub reached : Reached pings is_done 1
      pub migrated : Migrated entries o.applied
      pub in_use : o.is_closed ≡ false

    -- There is none, and the pool, if it was made, is closed.
    pub record Refused (o : Opened read_file runs) : Type 0 where
      pub error : OpenError
      pub told : o.err ≡ some error
      pub closed : o.is_closed ≡ connects

    -- `Open` gives a store only if the pool is made, one of the 20 pings succeeds before the context is
    -- done, and every file of the migrations whose name ends in .sql has been run, once each, in the
    -- order of the names; otherwise it returns an error, and a pool that was made is closed.
    pub open_store-settled :
        let o = open_store read_file runs connects pings is_done entries in Ready o ⊎ Refused o
    unfolding open_store
    open_store-settled = elim (Bool-cases connects) [
      | inr off ↦ rw (open_store, off) (inr (record { error = _; told = refl; closed = refl }))
      | inl made ↦ elim (Option-cases (ping_loop pings is_done connect_attempts 1)) [
        | inr (e, silent) ↦
            rw (open_store, made, silent) (inr (record { error = e; told = refl; closed = refl }))
        | inl answered ↦ elim (Option-cases (migrate read_file runs entries).0) [
          | inr (e, stuck) ↦
              rw (open_store, made, answered, stuck)
                (inr (record { error = e; told = refl; closed = refl }))
          | inl fine ↦
              rw (open_store, made, answered, fine)
                (inl (record {
                  no_error = refl;
                  connected = refl;
                  reached = (ping_loop-eq-none_iff pings is_done).0 answered;
                  migrated = migrate-Migrated entries fine;
                  in_use = refl;
                }))
        ]
      ]
    ]
