-- ===== src/Text/Decimal.antt =====
-- The decimal digits of a number, as fmt and strconv write and read them.
use go_research.Prelude.{
  ℕ, zero, suc, ◌+◌, ◌-◌, ◌*◌, ◌/◌, ◌%◌, ◌^◌, ◌<◌, ◌≤◌, ◌==◌, Bool, true, false, ◌&&◌, ltb, leb,
  ◌≡◌, ◌≢◌, List-cases, length, subst, sym, refl, ap, ◌∙◌, inl, inr, [], ◌∷◌, Str, arith,
  if◌then◌else◌, Bool-cases,
}
use go_research.Prelude.Int.{ℤ, pos, negsuc}
use go_research.Text.{digits_before, decimal}

-- The number that decimal digits stand for, after the value of those before them.
abbrev pub value_from : ℕ → Str → ℕ
value_from k [] = k
value_from k (c ∷ cs) = value_from (k * 10 + (c - 48)) cs

abbrev pub is_digit : ℕ → Bool
is_digit c = leb 48 c && leb c 57

abbrev pub all_digits : Str → Bool
all_digits [] = true
all_digits (c ∷ s) = is_digit c && all_digits s

abbrev pub negated : ℕ → ℤ
negated zero = pos zero
negated (suc n) = negsuc n

-- A number of at most 64 bits with its sign.
abbrev pub clamped : (is_negative : Bool) → ℕ → ℤ
clamped true n = if ltb (2 ^ 63) n then negated (2 ^ 63) else negated n
clamped false n = if ltb n (2 ^ 63) then pos n else pos (2 ^ 63 - 1)

-- What stands after the sign.
abbrev pub signed : (is_negative : Bool) → Str → ℤ
signed is_negative [] = pos 0
signed is_negative (c ∷ s) =
    if all_digits (c ∷ s) then clamped is_negative (value_from 0 (c ∷ s)) else pos 0

-- The first result of strconv.Atoi, on an int of 64 bits: 0 for what is no number, and the nearest int
-- for a number that does not fit.
unfoldable pub atoi : Str → ℤ
atoi [] = pos 0
atoi (c ∷ s) =
    if c == b'-' then signed true s else if c == b'+' then signed false s else signed false (c ∷ s)

digits_before-value :
    (fuel n : ℕ) (acc : Str) → n < fuel → value_from 0 (digits_before fuel n acc) ≡ value_from n acc
unfolding digits_before
digits_before-value zero n acc h = absurd (omega arith)
digits_before-value (suc fuel) n acc h = elim (Bool-cases (n / 10 == 0)) [
  | inl last ↦
      let small : n / 10 ≡ 0 = ground arith in
      rw (digits_before, last) (ap (λ k. value_from k acc) (omega arith))
  | inr more ↦
      let big : n / 10 ≢ 0 = ground arith in
      rw (digits_before, more)
        (digits_before-value fuel (n / 10) ((48 + n % 10) ∷ acc) (omega arith)
          ∙ ap (λ k. value_from k acc) (omega arith))
]

digits_before-digits :
    (fuel n : ℕ) (acc : Str) → all_digits acc ≡ true → all_digits (digits_before fuel n acc) ≡ true
unfolding digits_before
digits_before-digits zero n acc h = h
digits_before-digits (suc fuel) n acc h =
    let low : n % 10 < 10 = omega arith in
    let one : all_digits ((48 + n % 10) ∷ acc) ≡ true = ground (arith, low) in
    elim (Bool-cases (n / 10 == 0)) [
      | inl last ↦ rw (digits_before, last) one
      | inr more ↦ rw (digits_before, more) (digits_before-digits fuel (n / 10) _ one)
    ]

digits_before-length : (fuel n : ℕ) (acc : Str) → length acc ≤ length (digits_before fuel n acc)
unfolding digits_before
digits_before-length zero n acc = omega arith
digits_before-length (suc fuel) n acc = elim (Bool-cases (n / 10 == 0)) [
  | inl last ↦ rw (digits_before, last) (omega arith)
  | inr more ↦
      rw (digits_before, more)
        (omega (arith, digits_before-length fuel (n / 10) ((48 + n % 10) ∷ acc)))
]

decimal_not_empty : (n : ℕ) → decimal n ≢ []
unfolding decimal digits_before
decimal_not_empty n h = elim (Bool-cases (n / 10 == 0)) [
  | inl last ↦ cc (rw (decimal, digits_before, last) at h)
  | inr more ↦
      let e : digits_before n (n / 10) ((48 + n % 10) ∷ []) ≡ [] =
        rw (decimal, digits_before, more) at h in
      let longer = digits_before-length n (n / 10) ((48 + n % 10) ∷ []) in
      let none_left : length (digits_before n (n / 10) ((48 + n % 10) ∷ [])) ≡ 0 = ap length e in
      absurd (omega (arith, longer, none_left))
]

pub value-decimal : (n : ℕ) → value_from 0 (decimal n) ≡ n
unfolding decimal
value-decimal n = digits_before-value (suc n) n [] (omega arith)

atoi_digits :
    (c : ℕ) (s : Str)
    → all_digits (c ∷ s) ≡ true
    → atoi (c ∷ s) ≡ clamped false (value_from 0 (c ∷ s))
unfolding atoi
atoi_digits c s h =
    let minus : (c == b'-') ≡ false = ground arith in
    let plus : (c == b'+') ≡ false = ground arith in rw (atoi, minus, plus, h) refl

-- Atoi reads the digits of a number that fits an int of 64 bits as that number.
pub atoi-decimal : (n : ℕ) → n < 2 ^ 63 → atoi (decimal n) ≡ pos n
unfolding decimal
atoi-decimal n fits = elim (List-cases (decimal n)) [
  | inl nil ↦ absurd (decimal_not_empty n nil)
  | inr (c, s, e) ↦
      let digits : all_digits (c ∷ s) ≡ true =
        subst (λ t. all_digits t ≡ true) e (digits_before-digits (suc n) n [] refl) in
      let value : value_from 0 (c ∷ s) ≡ n = ap (value_from 0) (sym e) ∙ value-decimal n in
      let within : ltb n (2 ^ 63) ≡ true = ground arith in
      ap atoi e ∙ atoi_digits c s digits ∙ ap (clamped false) value ∙ rw within refl
]
