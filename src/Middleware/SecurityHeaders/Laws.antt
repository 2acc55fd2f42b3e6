-- ===== src/Middleware/SecurityHeaders/Laws.antt =====
-- Which headers a response carries.
use loxtu_go.Base.{
  ◌≡◌, refl, true, false, some, Str, bytes, str_eq, str_eq_refl, has_prefix, if◌then◌else◌,
  Bool-cases, inl, inr,
}
use loxtu_go.Base.Map
use loxtu_go.Base.Map.{Map, lookup-insert}
use loxtu_go.Middleware.Request.{Request}
use loxtu_go.Middleware.SecurityHeaders.{join, csp, is_secure, security_headers}

-- The names of the headers differ.
hsts_fr : str_eq (bytes "Strict-Transport-Security") (bytes "X-Frame-Options") ≡ false
unfolding str_eq bytes
hsts_fr = refl

csp_fr : str_eq (bytes "Content-Security-Policy") (bytes "X-Frame-Options") ≡ false
unfolding str_eq bytes
csp_fr = refl

pp_fr : str_eq (bytes "Permissions-Policy") (bytes "X-Frame-Options") ≡ false
unfolding str_eq bytes
pp_fr = refl

rp_fr : str_eq (bytes "Referrer-Policy") (bytes "X-Frame-Options") ≡ false
unfolding str_eq bytes
rp_fr = refl

sn_fr : str_eq (bytes "X-Content-Type-Options") (bytes "X-Frame-Options") ≡ false
unfolding str_eq bytes
sn_fr = refl

hsts_sn : str_eq (bytes "Strict-Transport-Security") (bytes "X-Content-Type-Options") ≡ false
unfolding str_eq bytes
hsts_sn = refl

csp_sn : str_eq (bytes "Content-Security-Policy") (bytes "X-Content-Type-Options") ≡ false
unfolding str_eq bytes
csp_sn = refl

pp_sn : str_eq (bytes "Permissions-Policy") (bytes "X-Content-Type-Options") ≡ false
unfolding str_eq bytes
pp_sn = refl

rp_sn : str_eq (bytes "Referrer-Policy") (bytes "X-Content-Type-Options") ≡ false
unfolding str_eq bytes
rp_sn = refl

hsts_csp : str_eq (bytes "Strict-Transport-Security") (bytes "Content-Security-Policy") ≡ false
unfolding str_eq bytes
hsts_csp = refl

csp_hsts : str_eq (bytes "Content-Security-Policy") (bytes "Strict-Transport-Security") ≡ false
unfolding str_eq bytes
csp_hsts = refl

pp_hsts : str_eq (bytes "Permissions-Policy") (bytes "Strict-Transport-Security") ≡ false
unfolding str_eq bytes
pp_hsts = refl

rp_hsts : str_eq (bytes "Referrer-Policy") (bytes "Strict-Transport-Security") ≡ false
unfolding str_eq bytes
rp_hsts = refl

sn_hsts : str_eq (bytes "X-Content-Type-Options") (bytes "Strict-Transport-Security") ≡ false
unfolding str_eq bytes
sn_hsts = refl

fr_hsts : str_eq (bytes "X-Frame-Options") (bytes "Strict-Transport-Security") ≡ false
unfolding str_eq bytes
fr_hsts = refl

ruleset laws = (
  lookup-insert, str_eq_refl, hsts_fr, csp_fr, pp_fr, rp_fr, sn_fr, hsts_sn, csp_sn, pp_sn, rp_sn,
  hsts_csp, csp_hsts, pp_hsts, rp_hsts, sn_hsts, fr_hsts,
)

-- A response outside /static/ forbids framing and content sniffing and carries the policy; it
-- carries HSTS if the request came over TLS, and otherwise what stood there before. Under /static/
-- nothing is set.
pub security_headers_lem :
    (r : Request) (w : Map Str)
    → (has_prefix r.path (bytes "/static/") ≡ true → security_headers r w ≡ w)
      × (has_prefix r.path (bytes "/static/") ≡ false
          → (Map.lookup (bytes "X-Frame-Options") (security_headers r w) ≡ some (bytes "DENY"))
            × (Map.lookup (bytes "X-Content-Type-Options") (security_headers r w)
                ≡ some (bytes "nosniff"))
            × (Map.lookup (bytes "Content-Security-Policy") (security_headers r w)
                ≡ some (join csp (bytes "; ")))
            × (Map.lookup (bytes "Strict-Transport-Security") (security_headers r w) ≡ (
                if is_secure r
                then some (bytes "max-age=31536000; includeSubDomains; preload")
                else Map.lookup (bytes "Strict-Transport-Security") w)))
unfolding security_headers
security_headers_lem r w = elim (Bool-cases (is_secure r)) [
  | inl secure ↦ ((λ s. rw s), λ s. rw (s, secure) (simp laws, simp laws, simp laws, simp laws))
  | inr plain ↦ ((λ s. rw s), λ s. rw (s, plain) (simp laws, simp laws, simp laws, simp laws))
]
