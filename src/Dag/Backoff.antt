-- ===== src/Dag/Backoff.antt =====
-- `ExponentialBackoff` (internal/agent/dag/scheduler.go). A time.Duration is an int64 of
-- nanoseconds, so the shift wraps around at 2 ^ 64 and is 0 from 64 places on.
use go_research.Prelude.{
  ℕ, zero, suc, ◌+◌, ◌-◌, ◌*◌, ◌%◌, ◌^◌, ◌≤◌, ◌<◌, min, ◌≡◌, refl, sym, ap, ◌∙◌, subst, ap₂, ◌⊎◌,
  inl, inr, ◌||◌, arith, ltb, if◌then◌else◌,
}
use go_research.Prelude.Int.{ℤ, pos, negsuc, ltbℤ, lebℤ}
use native.Mathlib.Nat.{
  pow-suc, add-zero, add-suc, dvd_refl, dvd-mul_left, dvd-mul_right_of_dvd, dvd-mul_left_of_dvd,
  dvd-mod_iff, le_of_dvd, mod-eq-zero_of_dvd, le_of_mul-le-mul_left, mul-le-mul_right, mul-pos,
  one-le-pow, le_trans,
}
use native.Mathlib.Decide.{dec_le, dec_lt, ℕ_discrete}
use Prim.Native.Nat.{◌∣◌}

-- An int64 as its 64 bits, and back.
abbrev to_word : ℤ → ℕ
to_word (pos n) = n % 2 ^ 64
to_word (negsuc n) = 2 ^ 64 - 1 - n % 2 ^ 64

abbrev of_word : ℕ → ℤ
of_word w = if ltb w (2 ^ 63) then pos w else negsuc (2 ^ 64 - 1 - w)

-- `d << k`
shift_left : ℤ → ℕ → ℤ
shift_left d k = of_word (to_word d * 2 ^ k % 2 ^ 64)

-- `attempt - 1`, once the attempt is at least 1
abbrev shift_count : ℤ → ℕ
shift_count (pos n) = n - 1
shift_count (negsuc n) = 0

-- A delay that is not positive, or past the maximum, becomes the maximum.
capped : ℤ → ℤ → ℤ
capped max d = if lebℤ d (pos 0) || ltbℤ max d then max else d

unfoldable pub exponential_backoff : ℤ → ℤ → ℤ → ℤ
unfolding shift_left capped
exponential_backoff base max attempt = capped max (shift_left base (shift_count attempt))

-- NoBackoff
unfoldable pub no_backoff : ℤ → ℤ
no_backoff attempt = pos 0

pow_dvd : (i j : ℕ) → 2 ^ i ∣ 2 ^ (i + j)
pow_dvd i zero = rw (add-zero i) (dvd_refl (2 ^ i))
pow_dvd i (suc j) =
    rw (add-suc i j) (rw (pow-suc 2 (i + j)) (dvd-mul_right_of_dvd (2 ^ i) (pow_dvd i j) 2))

pow_dvd_of_le : (i j : ℕ) → i ≤ j → 2 ^ i ∣ 2 ^ j
pow_dvd_of_le i j h =
    let e : i + (j - i) ≡ j = omega arith in subst (λ t. 2 ^ i ∣ 2 ^ t) e (pow_dvd i (j - i))

-- What is left of a shifted number modulo 2 ^ 64 is 0, or has kept a factor 2 ^ k.
residue : (b k : ℕ) → (b * 2 ^ k % 2 ^ 64 ≡ 0) ⊎ (2 ^ k ≤ b * 2 ^ k % 2 ^ 64)
residue b k = elim (dec_le k 64) [
  | yes small ↦
      let kept : 2 ^ k ∣ b * 2 ^ k % 2 ^ 64 =
        (dvd-mod_iff (2 ^ k) (pow_dvd_of_le k 64 small)).1 (dvd-mul_left (2 ^ k) b) in
      elim (ℕ_discrete (b * 2 ^ k % 2 ^ 64) 0) [
        | yes z ↦ inl z
        | no nz ↦ inr (le_of_dvd (omega arith) kept)
      ]
  | no large ↦ inl (
      mod-eq-zero_of_dvd (2 ^ 64)
        (dvd-mul_left_of_dvd (2 ^ 64) (pow_dvd_of_le 64 k (omega arith)) b))
]

capped-fits : (p m : ℕ) → 0 < p → p < 2 ^ 63 → capped (pos m) (of_word p) ≡ pos (min p m)
unfolding capped
capped-fits p m h k = ground arith

capped-wraps : (w m : ℕ) → (w ≡ 0) ⊎ (m ≤ w) → capped (pos m) (of_word w) ≡ pos m
unfolding capped
capped-wraps w m h = ground arith

module _ (b m k : ℕ) (positive : 0 < b) (in_range : b < 2 ^ 63) (bounded : b * m ≤ 2 ^ 63) where
  -- Past 2 ^ 63 the factor 2 ^ k alone exceeds the maximum.
  factor_large : 2 ^ 63 ≤ b * 2 ^ k → m ≤ 2 ^ k
  factor_large big = le_of_mul-le-mul_left {k = b} (omega arith) positive

  backoff_word :
      exponential_backoff (pos b) (pos m) (pos (suc k))
      ≡ capped (pos m) (of_word (b * 2 ^ k % 2 ^ 64))
  unfolding exponential_backoff
  backoff_word =
      let base : b % 2 ^ 64 ≡ b = omega arith in
      let count : suc k - 1 ≡ k = omega arith in
      ap₂ (λ (x y : ℕ). capped (pos m) (of_word (x * 2 ^ y % 2 ^ 64))) base count

  -- The delay after the failed attempt k + 1 is the base doubled k times, capped at the maximum: the
  -- wrapped shift never shows, as long as base * max does not exceed 2 ^ 63.
  pub exponential_backoff-eq-min :
      exponential_backoff (pos b) (pos m) (pos (suc k)) ≡ pos (min (b * 2 ^ k) m)
  exponential_backoff-eq-min = elim (dec_lt (b * 2 ^ k) (2 ^ 63)) [
    | yes small ↦
        let kept : b * 2 ^ k % 2 ^ 64 ≡ b * 2 ^ k = omega arith in
        let some_delay : 0 < b * 2 ^ k = mul-pos positive (one-le-pow k 2 (omega arith)) in
        backoff_word ∙ rw kept (capped-fits (b * 2 ^ k) m some_delay small)
    | no big ↦
        let past : m ≤ 2 ^ k = factor_large (omega arith) in
        let least : min (b * 2 ^ k) m ≡ m = omega (arith, mul-le-mul_right (2 ^ k) positive) in
        let left : (b * 2 ^ k % 2 ^ 64 ≡ 0) ⊎ (m ≤ b * 2 ^ k % 2 ^ 64) = elim (residue b k) [
          | inl z ↦ inl z
          | inr r ↦ inr (le_trans past r)
        ] in
        backoff_word ∙ capped-wraps (b * 2 ^ k % 2 ^ 64) m left ∙ ap pos (sym least)
  ]

-- Without the bound the wrapped shift shows: a base past 2 ^ 62 comes back as a delay of 4.
backoff_wraps : exponential_backoff (pos (2 ^ 62 + 1)) (pos (2 ^ 63 - 1)) (pos 3) ≡ pos 4
unfolding exponential_backoff
backoff_wraps = refl
