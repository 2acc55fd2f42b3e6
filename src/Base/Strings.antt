-- ===== src/Base/Strings.antt =====
-- What the program uses of Go's `strings` and `encoding/hex`, on bytes. White space and letter case
-- are those of ASCII.
use loxtu_go.Base.Tests.{ltb, leb, ◌==◌, if◌then◌else◌, Bool-cases, Option-cases}
use loxtu_go.Base.Lists.{length, drop, is_empty, any, All}
use loxtu_go.Base.Text.{Str, str_eq}
use Prim.Native.Nat.{ℕ, ◌+◌, ◌-◌, ◌*◌, ◌/◌, ◌%◌, ◌<◌}
use mathlib.Core.Path.{◌≡◌, refl}
use mathlib.Core.Logic.{◌≢◌, inl, inr}
use mathlib.Core.Bool.{Bool, true, false, ◌&&◌, ◌||◌}
use mathlib.Core.Option.{Option, none, some}
use mathlib.Core.List.{[], ◌∷◌, ◌++◌}
use native.Mathlib.Omega.{arith}

abbrev pub is_space : ℕ → Bool
is_space c = c == 32 || (leb 9 c && leb c 13)

unfoldable pub trim_left : Str → Str
trim_left [] = []
trim_left (c ∷ s) = let rest = trim_left s in if is_space c then rest else c ∷ s

-- Drops the white space at the end.
unfoldable pub trim_right : Str → Str
trim_right [] = []
trim_right (c ∷ s) = let rest = trim_right s in if is_empty rest && is_space c then [] else c ∷ rest

-- strings.TrimSpace
unfoldable pub trim_space : Str → Str
unfolding trim_left trim_right
trim_space s = trim_right (trim_left s)

abbrev lower : ℕ → ℕ
lower c = if leb b'A' c && leb c b'Z' then c + 32 else c

-- strings.ToLower
unfoldable pub to_lower : Str → Str
to_lower [] = []
to_lower (c ∷ s) = lower c ∷ to_lower s

-- strings.SplitN(s, sep, 2) for a separator of one byte: `none` is the single part `s`.
unfoldable pub split_first : ℕ → Str → Option (Str × Str)
split_first sep [] = none
split_first sep (c ∷ s) =
    let rest = split_first sep s in
    if c == sep then some ([], s) else elim rest [ none ↦ none | some (a, b) ↦ some (c ∷ a, b) ]

abbrev pub contains_byte : Str → ℕ → Bool
contains_byte s b = any (λ c. c == b) s

-- strings.HasSuffix
unfoldable pub has_suffix : Str → Str → Bool
has_suffix s suffix =
    leb (length suffix) (length s) && str_eq (drop (length s - length suffix) s) suffix

abbrev pub hex_digit : ℕ → ℕ
hex_digit d = if ltb d 10 then 48 + d else 87 + d

-- encoding/hex.EncodeToString
unfoldable pub hex_encode : Str → Str
hex_encode [] = []
hex_encode (b ∷ s) = hex_digit (b / 16) ∷ hex_digit (b % 16) ∷ hex_encode s

pub length-hex_encode : (s : Str) → length (hex_encode s) ≡ 2 * length s
unfolding hex_encode
length-hex_encode [] = omega arith
length-hex_encode (b ∷ s) = omega (arith, length-hex_encode s)

-- The text in front of the first separator, and what follows it.
pub split_first-append :
    (sep : ℕ) (a b : Str) → All (λ c. c ≢ sep) a → split_first sep (a ++ sep ∷ b) ≡ some (a, b)
unfolding split_first
split_first-append sep [] b h = ground arith
split_first-append sep (c ∷ a) b (ne, h) = ground (arith, split_first-append sep a b h)

-- The two parts spell the text, and the first holds no separator.
pub split_first-eq-some :
    (sep : ℕ) (s a b : Str)
    → split_first sep s ≡ some (a, b)
    → (s ≡ a ++ sep ∷ b) × All (λ c. c ≢ sep) a
unfolding split_first
split_first-eq-some sep [] a b e = cc
split_first-eq-some sep (c ∷ s) a b e = elim (Bool-cases (c == sep)) [
  | inl hit ↦ go_hit a hit (rw hit at e)
  | inr miss ↦ elim (Option-cases (split_first sep s)) [
    | inl f ↦ absurd (cc (rw (miss, f) at e))
    | inr ((u, v), f) ↦
        let (spell, free) = split_first-eq-some sep s u v f in
        go_miss u v miss spell free (rw (miss, f) at e)
  ]
]
  where
    go_hit :
        (a' : Str)
        → (c == sep) ≡ true
        → ◌≡◌ {A = Option (Str × Str)} (some ([], s)) (some (a', b))
        → (c ∷ s ≡ a' ++ sep ∷ b) × All (λ x. x ≢ sep) a'
    go_hit [] hit q = (ground arith, tt)
    go_hit (x ∷ a') hit q = cc

    go_miss :
        (u v : Str)
        → (c == sep) ≡ false
        → s ≡ u ++ sep ∷ v
        → All (λ x. x ≢ sep) u
        → ◌≡◌ {A = Option (Str × Str)} (some (c ∷ u, v)) (some (a, b))
        → (c ∷ s ≡ a ++ sep ∷ b) × All (λ x. x ≢ sep) a
    go_miss u v miss spell free q = let q' : c ∷ u ≡ a = cc in (cc, rw (← q') (ground arith, free))

trim_right_of_All : (s : Str) → All (λ c. is_space c ≡ false) s → trim_right s ≡ s
unfolding trim_right
trim_right_of_All [] h = refl
trim_right_of_All (c ∷ s) (n, h) = rw (trim_right_of_All s h) (ground arith)

-- A text with no white space is left as it is.
pub trim_space_of_All : (s : Str) → All (λ c. is_space c ≡ false) s → trim_space s ≡ s
unfolding trim_space
trim_space_of_All [] h = refl
trim_space_of_All (c ∷ s) (n, h) = rw n (trim_right_of_All (c ∷ s) (n, h))

abbrev pub IsByte : ℕ → Type 0
IsByte b = b < 256

pub hex_encode-no_space : (s : Str) → All IsByte s → All (λ c. is_space c ≡ false) (hex_encode s)
unfolding hex_encode
hex_encode-no_space [] h = tt
hex_encode-no_space (b ∷ s) (n, h) = (ground arith, (ground arith, hex_encode-no_space s h))
