-- ===== src/Tool/Mock.antt =====
-- `itoa` of internal/tool/search/mock.go.
pub mod Search
use go_research.Prelude.{
  ℕ, zero, suc, ◌+◌, ◌-◌, ◌*◌, ◌/◌, ◌%◌, ◌^◌, ◌<◌, ◌≡◌, refl, [], ◌∷◌, Str, codes, arith, ◌∙◌, ap,
}
use go_research.Prelude.Int.{ℤ, pos, negsuc}
use go_research.Text.Decimal.{value_from}

-- The loop, which fills a buffer of 20 bytes from its end.
pub itoa_loop : (room : ℕ) → ℕ → Str → Str
itoa_loop zero n digits = digits
itoa_loop (suc room) zero digits = digits
itoa_loop (suc room) (suc n) digits = itoa_loop room (suc n / 10) ((48 + suc n % 10) ∷ digits)

unfoldable pub itoa : ℤ → Str
unfolding itoa_loop
itoa (pos zero) = codes "0"
itoa (pos (suc n)) = itoa_loop 20 (suc n) []
itoa (negsuc n) = []

itoa_loop-value :
    (room n : ℕ) (digits : Str)
    → n < 10 ^ room
    → value_from 0 (itoa_loop room n digits) ≡ value_from n digits
unfolding itoa_loop
itoa_loop-value zero n digits h = ap (λ k. value_from k digits) (omega (arith, h))
itoa_loop-value (suc room) zero digits h = refl
itoa_loop-value (suc room) (suc n) digits h =
    itoa_loop-value room (suc n / 10) ((48 + suc n % 10) ∷ digits) (omega (arith, h))
    ∙ ap (λ k. value_from k digits) (omega arith)

-- The digits of a number that is not negative and fits the buffer stand for that number; every int
-- of 64 bits fits.
pub value-itoa : (n : ℕ) → n < 10 ^ 20 → value_from 0 (itoa (pos n)) ≡ n
unfolding itoa
value-itoa zero h = refl
value-itoa (suc n) h = itoa_loop-value 20 (suc n) [] h
