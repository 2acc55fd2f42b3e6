-- ===== src/Middleware/SecurityHeaders.antt =====
-- internal/interfaces/http/middleware/security_headers.go. The response's headers are a map, and
-- the middleware sets some of them before it hands the request on.
pub mod Laws
mod Tests
use loxtu_go.Base.{Bool, ◌||◌, List, [], ◌∷◌, ◌++◌, Str, bytes, str_eq, has_prefix, if◌then◌else◌}
use loxtu_go.Base.Map
use loxtu_go.Base.Map.{Map}
use loxtu_go.Middleware.Request.{Request, header}

-- The loop of `join` behind its first part.
join_onto : Str → List Str → Str → Str
join_onto result [] sep = result
join_onto result (s ∷ strs) sep = join_onto (result ++ sep ++ s) strs sep

pub join : List Str → Str → Str
join [] sep = []
join (s ∷ strs) sep = join_onto s strs sep

pub csp : List Str
csp =
    bytes "default-src 'self'"
    ∷ bytes
        "script-src 'self' https://unpkg.com https://cdn.jsdelivr.net 'unsafe-inline' 'unsafe-eval'"
    ∷ bytes
        "style-src 'self' https://fonts.googleapis.com https://api.fontshare.com 'unsafe-inline'"
    ∷ bytes "font-src 'self' https://fonts.gstatic.com https://api.fontshare.com https:"
    ∷ bytes "img-src 'self' data:"
    ∷ bytes "connect-src 'self' ws://localhost:* http://localhost:*"
    ∷ bytes "frame-ancestors 'none'"
    ∷ bytes "base-uri 'self'"
    ∷ bytes "form-action 'self'"
    ∷ []

abbrev pub is_secure : Request → Bool
is_secure r = str_eq (header r (bytes "X-Forwarded-Proto")) (bytes "https") || r.is_tls

with_hsts : Request → Map Str → Map Str
with_hsts r w =
    if is_secure r
    then Map.insert (bytes "Strict-Transport-Security")
        (bytes "max-age=31536000; includeSubDomains; preload") w
    else w

pub security_headers : Request → Map Str → Map Str
unfolding with_hsts
security_headers r w =
    if has_prefix r.path (bytes "/static/")
    then w
    else with_hsts r (
        Map.insert (bytes "Content-Security-Policy") (join csp (bytes "; ")) (
          Map.insert (bytes "Permissions-Policy") (bytes "camera=(), microphone=(), geolocation=()")
            (Map.insert (bytes "Referrer-Policy") (bytes "strict-origin-when-cross-origin") (
              Map.insert (bytes "X-Content-Type-Options") (bytes "nosniff")
                (Map.insert (bytes "X-Frame-Options") (bytes "DENY") w)))))
