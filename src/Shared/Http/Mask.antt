-- ===== src/Shared/Http/Mask.antt =====
-- The masks of internal/shared/httputil/http.go and internal/core/identity/user.go.
use loxtu_go.Base.{
  Option, none, some, [], ◌∷◌, Str, bytes, ◌≡◌, ◌≢◌, ◌↔◌, refl, ap, sym, ◌∙◌, is_empty,
  if◌then◌else◌,
}
use loxtu_go.Base.Result.{ok, panics}
use loxtu_go.Base.Strings.{trim_space, split_first, split_first-eq-some}
use loxtu_go.Identity.User.{mask_email_string, mask_local}
use loxtu_go.Shared.Http.{masked, mask_email}

-- A text with something in front of its first at-sign.
abbrev pub IsAddress : Str → Type 0
IsAddress email =
    (local : Str) × (domain : Str) × (split_first b'@' email ≡ some (local, domain)) × (local ≢ [])

masked_of : (email : Str) → email ≢ [] → mask_email email ≡ masked email (split_first b'@' email)
unfolding mask_email
masked_of [] ne = absurd (ne refl)
masked_of (c ∷ s) ne = refl

mask_string-none :
    (email : Str)
    → trim_space email ≡ email
    → split_first b'@' email ≡ none
    → mask_email_string email ≡ bytes "***"
unfolding mask_email_string
mask_string-none email trimmed e = rw (trimmed, e, mask_email_string) refl

mask_string-some :
    (email local domain : Str)
    → trim_space email ≡ email
    → split_first b'@' email ≡ some (local, domain)
    → mask_email_string email ≡ (if is_empty local then bytes "***" else mask_local local domain)
unfolding mask_email_string
mask_string-some email local domain trimmed e = rw (trimmed, e, mask_email_string) refl

nonempty-address : (email : Str) → IsAddress email → email ≢ []
unfolding split_first
nonempty-address [] (local, domain, e, named) = absurd cc
nonempty-address (c ∷ s) (local, domain, e, named) = λ q. cc

agree :
    (email : Str)
    → trim_space email ≡ email
    → IsAddress email
    → mask_email email ≡ ok (mask_email_string email)
unfolding masked
agree email trimmed ([], domain, e, named) = absurd (named refl)
agree email trimmed (c ∷ l, domain, e, named) =
    masked_of email (nonempty-address email (c ∷ l, domain, e, named))
    ∙ ap (masked email) e
    ∙ ap ok (sym (mask_string-some email (c ∷ l) domain trimmed e))

masked-panics :
    (email : Str) (o : Option (Str × Str))
    → split_first b'@' email ≡ o
    → masked email o ≡ panics
    → (domain : Str) × (email ≡ b'@' ∷ domain)
unfolding masked
masked-panics email none e p = absurd cc
masked-panics email (some ([], domain)) e p =
    (domain, (split_first-eq-some b'@' email [] domain e).0)
masked-panics email (some (c ∷ l, domain)) e p = absurd cc

mask_email-panics :
    (email : Str) → mask_email email ≡ panics → (domain : Str) × (email ≡ b'@' ∷ domain)
unfolding mask_email
mask_email-panics [] p = absurd cc
mask_email-panics (c ∷ s) p = masked-panics (c ∷ s) (split_first b'@' (c ∷ s)) refl p

at_first : (domain : Str) → mask_email (b'@' ∷ domain) ≡ panics
unfolding mask_email masked split_first
at_first domain = refl

shown : (email : Str) → split_first b'@' email ≡ none → mask_email email ≡ ok email
unfolding mask_email masked
shown [] e = refl
shown (c ∷ s) e = ap (masked (c ∷ s)) e

-- The two masks of addresses: of a text without white space around it, the mask of the log lines
-- and the mask of the users are the same if something stands in front of its first at-sign; the
-- first mask panics exactly if the text begins with an at-sign; and a text without an at-sign is
-- shown as it is, where the second mask gives stars.
pub mask_email-mask_email_string :
    (email : Str)
    → trim_space email ≡ email
    → (IsAddress email → mask_email email ≡ ok (mask_email_string email))
      × ((mask_email email ≡ panics) ↔ ((domain : Str) × (email ≡ b'@' ∷ domain)))
      × (split_first b'@' email ≡ none
          → (mask_email email ≡ ok email) × (mask_email_string email ≡ bytes "***"))
mask_email-mask_email_string email trimmed = (
  agree email trimmed,
  (mask_email-panics email, λ (domain, e). ap mask_email e ∙ at_first domain),
  λ e. (shown email e, mask_string-none email trimmed e),
)
