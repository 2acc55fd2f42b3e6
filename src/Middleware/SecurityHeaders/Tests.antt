-- ===== src/Middleware/SecurityHeaders/Tests.antt =====
-- The security headers at a concrete request.
use loxtu_go.Base.{◌≡◌, refl, true, [], ◌∷◌, bytes}
use loxtu_go.Middleware.Request.{Request}
use loxtu_go.Middleware.SecurityHeaders.{join, join_onto}

abbrev secure : Request
secure = record {
  method = bytes "GET";
  path = bytes "/";
  remote_addr = bytes "9.9.9.9:1";
  is_tls = true;
  headers = [];
  query = [];
  form = [];
  cookies = [];
}

joined : join (bytes "a" ∷ bytes "b" ∷ []) (bytes "; ") ≡ bytes "a; b"
unfolding join join_onto bytes
joined = refl
