-- ===== src/Shared/Http/Tests.antt =====
-- internal/shared/httputil/http.go on concrete addresses.
use loxtu_go.Base.{none, Str, bytes, ◌≡◌, ◌↔◌, refl, ◌∷◌}
use loxtu_go.Base.Result.{ok, panics}
use loxtu_go.Base.Strings.{trim_space, trim_left, trim_right, split_first}
use loxtu_go.Identity.User.{mask_email_string}
use loxtu_go.Shared.Http.{masked, mask_email}
use loxtu_go.Shared.Http.Mask.{IsAddress, mask_email-mask_email_string}

abbrev an_address : Str
an_address = bytes "ann@b.c"

short_local : mask_email (bytes "ab@c") ≡ ok (bytes "a***@c")
unfolding mask_email masked split_first bytes
short_local = refl

trimmed : trim_space an_address ≡ an_address
unfolding trim_space trim_left trim_right bytes
trimmed = refl

mask_email-mask_email_string_example :
    (IsAddress an_address → mask_email an_address ≡ ok (mask_email_string an_address))
    × ((mask_email an_address ≡ panics) ↔ ((domain : Str) × (an_address ≡ b'@' ∷ domain)))
    × (split_first b'@' an_address ≡ none
        → (mask_email an_address ≡ ok an_address) × (mask_email_string an_address ≡ bytes "***"))
mask_email-mask_email_string_example = mask_email-mask_email_string an_address trimmed
