-- ===== src/Middleware/RequestId/Hex.antt =====
-- The hexadecimal print of `itohex`.
use mathlib.Core.List.{foldl}
use native.Mathlib.Nat.{pow-suc}
use loxtu_go.Base.{
  ℕ, zero, suc, ◌+◌, ◌-◌, ◌*◌, ◌/◌, ◌%◌, ◌^◌, ◌≤◌, ◌<◌, ◌≡◌, refl, ap, ◌∙◌, inl, inr, false, Option,
  some, [], ◌∷◌, ◌++◌, arith, Str, ltb, leb, ◌==◌, length, take, replicate, length-append,
  length-replicate, length-take_of_le, if◌then◌else◌, Bool-cases,
}
use loxtu_go.Base.Strings.{hex_digit}
use loxtu_go.Middleware.RequestId.{pad, itohex, itohex_loop}

abbrev pub digit_value : ℕ → ℕ
digit_value c = if ltb c b'a' then c - b'0' else c - 87

-- The number that the digits spell behind `n`.
abbrev pub hex_value : ℕ → Str → ℕ
hex_value = foldl (λ n c. n * 16 + digit_value c)

digit_value-hex_digit : (d : ℕ) → d < 16 → digit_value (hex_digit d) ≡ d
digit_value-hex_digit d h = ground arith

-- What the loop makes of `n` in front of the digits `buf`.
record Prints (n : ℕ) (buf : Str) (r : Option Str) : Type 0 where
  out : Str
  made : r ≡ some out
  spells : hex_value 0 out ≡ hex_value n buf
  short : (w : ℕ) → n < 16 ^ w → length out ≤ w + length buf

short_step :
    (n w : ℕ) (buf out : Str)
    → (n == 0) ≡ false
    → ((v : ℕ) → n / 16 < 16 ^ v → length out ≤ v + length (hex_digit (n % 16) ∷ buf))
    → n < 16 ^ w
    → length out ≤ w + length buf
short_step n zero buf out more ih h = absurd (ground arith)
short_step n (suc w) buf out more ih h = omega (arith, ih w (omega (arith, pow-suc 16 w)))

itohex_loop-Prints : (i n : ℕ) (buf : Str) → n < 16 ^ i → Prints n buf (itohex_loop i n buf)
unfolding itohex_loop
itohex_loop-Prints zero n buf h =
    let e : n ≡ 0 = omega arith in
    rw e (record { out = buf; made = refl; spells = refl; short = λ w _. omega arith })
itohex_loop-Prints (suc i) n buf h = elim (Bool-cases (n == 0)) [
  | inl done ↦
      let e : n ≡ 0 = ground arith in
      rw e (record { out = buf; made = refl; spells = refl; short = λ w _. omega arith })
  | inr more ↦
      let ih =
        itohex_loop-Prints i (n / 16) (hex_digit (n % 16) ∷ buf) (omega (arith, pow-suc 16 i)) in
      let back : n / 16 * 16 + digit_value (hex_digit (n % 16)) ≡ n =
        rw (digit_value-hex_digit (n % 16) (omega arith)) (omega arith) in
      rw more (record {
        out = ih.out;
        made = ih.made;
        spells = rw back at ih.spells;
        short = λ w. short_step n w buf ih.out more ih.short;
      })
]

hex_value-zeros : (k : ℕ) (s : Str) → hex_value 0 (replicate k b'0' ++ s) ≡ hex_value 0 s
hex_value-zeros zero s = refl
hex_value-zeros (suc k) s = hex_value-zeros k s

length-pad : (s : Str) (w c : ℕ) → length (pad s w c) ≡ w
unfolding pad
length-pad s w c = elim (Bool-cases (leb w (length s))) [
  | inl long ↦ rw long (length-take_of_le w s (ground arith))
  | inr small ↦
      rw (small, length-append (replicate (w - length s) c) s, length-replicate (w - length s) c)
        (ground arith)
]

take_all : (s : Str) → take (length s) s ≡ s
take_all [] = refl
take_all (c ∷ s) = ap (◌∷◌ c) (take_all s)

hex_value-pad : (s : Str) (w : ℕ) → length s ≤ w → hex_value 0 (pad s w b'0') ≡ hex_value 0 s
unfolding pad
hex_value-pad s w h = elim (Bool-cases (leb w (length s))) [
  | inl long ↦ let e : w ≡ length s = ground arith in rw (long, e) (rw (take_all s))
  | inr small ↦ rw small (hex_value-zeros (w - length s) s)
]

-- `itohex` prints every time of 64 bits, in exactly `width` digits; they spell the number if it
-- fits in as many.
pub itohex_lem :
    (n width : ℕ)
    → n < 16 ^ 16
    → (s : Str) × (itohex n width ≡ some s)
      × (length s ≡ width)
      × (n < 16 ^ width → hex_value 0 s ≡ n)
unfolding itohex
itohex_lem n width h = elim (Bool-cases (n == 0)) [
  | inl done ↦
      let e : n ≡ 0 = ground arith in
      rw e (
        pad [] width b'0',
        refl,
        length-pad [] width b'0',
        λ _. hex_value-pad [] width (omega arith),
      )
  | inr more ↦
      let p = itohex_loop-Prints 16 n [] h in
      rw (more, p.made)
        (
          pad p.out width b'0',
          refl,
          length-pad p.out width b'0',
          λ fits. hex_value-pad p.out width (omega (arith, p.short width fits)) ∙ p.spells,
        )
]
