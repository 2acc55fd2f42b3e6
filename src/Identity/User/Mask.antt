-- ===== src/Identity/User/Mask.antt =====
-- The masked address of internal/core/identity/user.go, which logs and pages show.
use loxtu_go.Base.{
  ℕ, ◌-◌, [], ◌∷◌, ◌++◌, Str, bytes, All, length, drop, length-append, drop-append, leb, false, ◌≡◌,
  ◌≢◌, refl, sym, ◌∙◌, arith,
}
use loxtu_go.Base.Strings.{trim_space, split_first-append}
use loxtu_go.Identity.User.{mask_email_string, mask_local}

-- The address of a local part that is `first`, something in the middle, and `last`.
abbrev pub long_address : ℕ → ℕ → Str → ℕ → Str → Str
long_address first x middle last domain = (first ∷ (x ∷ middle) ++ last ∷ []) ++ b'@' ∷ domain

drop-last : (s : Str) (last : ℕ) → drop (length (s ++ last ∷ []) - 1) (s ++ last ∷ []) ≡ last ∷ []
drop-last s last =
    let n : length (s ++ last ∷ []) - 1 ≡ length s = omega (arith, length-append s (last ∷ [])) in
    rw n (drop-append s (last ∷ []))

mask_local_long :
    (first x last : ℕ) (middle domain : Str)
    → mask_local (first ∷ (x ∷ middle) ++ last ∷ []) domain
      ≡ first ∷ bytes "***" ++ last ∷ bytes "@" ++ domain
unfolding bytes
mask_local_long first x last middle domain =
    let few : leb (length (first ∷ (x ∷ middle) ++ last ∷ [])) 2 ≡ false =
      ground (arith, length-append middle (last ∷ [])) in
    rw (few, drop-last (first ∷ x ∷ middle) last) refl

-- The mask of an address whose local part has three bytes or more and no at-sign is its first
-- byte, three stars, its last byte and the domain.
mask_long :
    (email : Str) (first x last : ℕ) (middle domain : Str)
    → All (λ c. c ≢ b'@') (first ∷ (x ∷ middle) ++ last ∷ [])
    → trim_space email ≡ long_address first x middle last domain
    → mask_email_string email ≡ first ∷ bytes "***" ++ last ∷ bytes "@" ++ domain
unfolding mask_email_string
mask_long email first x last middle domain free e =
    rw
      (
        e,
        mask_email_string,
        split_first-append b'@' (first ∷ (x ∷ middle) ++ last ∷ []) domain free,
      )
      (mask_local_long first x last middle domain)

-- The mask shows nothing of the middle of the local part, not even its length: two addresses of
-- three bytes or more before their first at-sign, with the same first byte, last byte and domain,
-- have the same mask.
pub mask_hides :
    (email other : Str) (first x y last : ℕ) (middle centre domain : Str)
    → All (λ c. c ≢ b'@') (first ∷ (x ∷ middle) ++ last ∷ [])
    → All (λ c. c ≢ b'@') (first ∷ (y ∷ centre) ++ last ∷ [])
    → trim_space email ≡ long_address first x middle last domain
    → trim_space other ≡ long_address first y centre last domain
    → mask_email_string email ≡ mask_email_string other
mask_hides email other first x y last middle centre domain free clear e o =
    mask_long email first x last middle domain free e
    ∙ sym (mask_long other first y last centre domain clear o)
