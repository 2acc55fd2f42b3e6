-- ===== src/Shared/Http.antt =====
-- internal/shared/httputil/http.go: the masked address of log lines.
pub mod Mask
mod Tests
use loxtu_go.Base.{Option, none, some, [], ◌∷◌, Str, is_empty, if◌then◌else◌}
use loxtu_go.Base.Result.{Result, ok, panics}
use loxtu_go.Base.Strings.{split_first}
use loxtu_go.Identity.User.{mask_local}

-- `local[:1]` panics on an empty local part.
unfoldable pub masked : Str → Option (Str × Str) → Result Str
masked email none = ok email
masked email (some ([], domain)) = panics
masked email (some (c ∷ local, domain)) = ok (mask_local (c ∷ local) domain)

unfoldable pub mask_email : Str → Result Str
mask_email email = if is_empty email then ok [] else masked email (split_first b'@' email)
