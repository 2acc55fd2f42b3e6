-- ===== src/Middleware/RateLimit/Decimal.antt =====
-- The decimal print of `itoa`.
use mathlib.Core.List.{foldl}
use native.Mathlib.Nat.{pow-suc}
use loxtu_go.Base.{
  ℕ, zero, suc, ◌+◌, ◌-◌, ◌*◌, ◌/◌, ◌%◌, ◌^◌, ◌≤◌, ◌<◌, ◌≡◌, ◌⊎◌, inl, inr, refl, ◌∙◌, false,
  Option, none, some, [], ◌∷◌, arith, Str, bytes, ◌==◌, All, Bool-cases, ltb, ltb→lt,
}
use loxtu_go.Middleware.RateLimit.{itoa, itoa_loop}

abbrev pub IsDigit : ℕ → Type 0
IsDigit c = (b'0' ≤ c) × (c ≤ b'9')

-- The number that the digits spell behind `n`.
abbrev pub decimal : ℕ → Str → ℕ
decimal = foldl (λ n c. n * 10 + (c - b'0'))

-- What the loop makes of `n` in front of the digits `buf`.
abbrev Prints : ℕ → Str → Option Str → Type 0
Prints n buf r = (s : Str) × (r ≡ some s) × All IsDigit s × (decimal 0 s ≡ decimal n buf)

itoa_loop-Prints :
    (i n : ℕ) (buf : Str) → n < 10 ^ i → All IsDigit buf → Prints n buf (itoa_loop i n buf)
unfolding itoa_loop
itoa_loop-Prints zero n buf h d = let e : n ≡ 0 = omega arith in rw e (buf, refl, d, refl)
itoa_loop-Prints (suc i) n buf h d = elim (Bool-cases (n == 0)) [
  | inl done ↦ let e : n ≡ 0 = ground arith in rw e (buf, refl, d, refl)
  | inr more ↦
      let (s, e, ds, v) =
        itoa_loop-Prints i (n / 10) ((b'0' + n % 10) ∷ buf) (omega (arith, pow-suc 10 i))
          ((omega arith, omega arith), d) in
      let back : n / 10 * 10 + (b'0' + n % 10 - b'0') ≡ n = omega arith in
      rw more (s, e, ds, rw back at v)
]

pow_pos : (i : ℕ) → 0 < 10 ^ i
pow_pos zero = omega arith
pow_pos (suc i) = omega (arith, pow-suc 10 i, pow_pos i)

itoa_loop_overflow : (i n : ℕ) (buf : Str) → 10 ^ i ≤ n → itoa_loop i n buf ≡ none
unfolding itoa_loop
itoa_loop_overflow zero n buf h = ground arith
itoa_loop_overflow (suc i) n buf h = elim (Bool-cases (n == 0)) [
  | inl done ↦ let e : n ≡ 0 = ground arith in absurd (omega (arith, e, pow_pos (suc i)))
  | inr more ↦
      rw more (itoa_loop_overflow i (n / 10) ((b'0' + n % 10) ∷ buf) (omega (arith, pow-suc 10 i)))
]

itoa-itoa_loop : (n : ℕ) → (n == 0) ≡ false → itoa n ≡ itoa_loop 10 n []
unfolding itoa
itoa-itoa_loop n e = rw e

itoa_zero :
    (n : ℕ)
    → n ≡ 0
    → (s : Str) × (itoa n ≡ some s) × All IsDigit s × (decimal 0 s ≡ n) × (n < 10 ^ 10)
unfolding itoa bytes
itoa_zero n e = rw e (b'0' ∷ [], refl, ((omega arith, omega arith), tt), refl, omega arith)

-- `itoa` prints a number of at most ten digits as digits that spell it; on a larger one it writes
-- outside its buffer and panics.
pub itoa_lem :
    (n : ℕ)
    → ((s : Str) × (itoa n ≡ some s) × All IsDigit s × (decimal 0 s ≡ n) × (n < 10 ^ 10))
      ⊎ ((itoa n ≡ none) × (10 ^ 10 ≤ n))
itoa_lem n = elim (Bool-cases (n == 0)) [
  | inl none_left ↦ inl (itoa_zero n (ground arith))
  | inr more ↦ elim (Bool-cases (ltb n (10 ^ 10))) [
    | inl small ↦
        let (s, e, ds, v) = itoa_loop-Prints 10 n [] (ltb→lt n (10 ^ 10) small) tt in
        inl (s, itoa-itoa_loop n more ∙ e, ds, v, ltb→lt n (10 ^ 10) small)
    | inr large ↦
        let h : 10 ^ 10 ≤ n = ground arith in
        inr (itoa-itoa_loop n more ∙ itoa_loop_overflow 10 n [] h, h)
  ]
]
