-- ===== src/Identity/User/Handle.antt =====
-- The composite WebAuthn handle of internal/core/identity/user.go: the tenant, a colon and a random
-- part.
use loxtu_go.Base.{
  some, [], ◌∷◌, ◌++◌, Str, All, ◌≡◌, ◌≢◌, ◌↔◌, refl, sym, ap, ◌∙◌, Option-cases, inl, inr,
}
use loxtu_go.Base.Result.{ok}
use loxtu_go.Base.Strings.{split_first, split_first-append, split_first-eq-some}
use loxtu_go.Identity.User.{parse_handle, checked_parts, generate_handle_with_tenant}

-- A tenant and a random part that are not empty, with no colon in the tenant.
abbrev pub IsParts : Str → Str → Type 0
IsParts tenant random = (tenant ≢ []) × (random ≢ []) × All (λ c. c ≢ b':') tenant

checked_parts_iff :
    (parts : Str × Str) (t r : Str)
    → (checked_parts parts ≡ some (t, r)) ↔ ((parts ≡ (t, r)) × (t ≢ []) × (r ≢ []))
checked_parts_iff ([], b) t r = (λ e. absurd cc, λ p. absurd (p.1 (sym (ap (λ q. q.0) p.0))))
checked_parts_iff (x ∷ a, []) t r = (λ e. absurd cc, λ p. absurd (p.2 (sym (ap (λ q. q.1) p.0))))
checked_parts_iff (x ∷ a, y ∷ b) t r = (
  λ e.
      let q : ◌≡◌ {A = Str × Str} (x ∷ a, y ∷ b) (t, r) = cc in
      (q, (λ n. absurd cc), (λ n. absurd cc)),
  λ p. ap some p.0,
)

parse_handle_sound :
    (h t r : Str) → parse_handle h ≡ some (t, r) → (h ≡ t ++ b':' ∷ r) × IsParts t r
unfolding parse_handle
parse_handle_sound h t r e = elim (Option-cases (split_first b':' h)) [
  | inl f ↦ absurd cc
  | inr ((u, v), f) ↦
      let (same, nt, nr) = (checked_parts_iff (u, v) t r).0 (rw (f, parse_handle) at e) in
      let (spell, free) = split_first-eq-some b':' h t r (f ∙ ap some same) in
      (spell, (nt, nr, free))
]

parse_handle_complete :
    (h t r : Str) → (h ≡ t ++ b':' ∷ r) × IsParts t r → parse_handle h ≡ some (t, r)
unfolding parse_handle
parse_handle_complete h t r (spell, (nt, nr, free)) =
    rw (spell, parse_handle, split_first-append b':' t r free)
      ((checked_parts_iff (t, r) t r).1 (refl, nt, nr))

-- The parser accepts exactly the texts of a tenant, a colon and a random part, neither of them
-- empty and the tenant without a colon, and it returns these two parts.
pub parse_handle_iff :
    (h t r : Str) → (parse_handle h ≡ some (t, r)) ↔ ((h ≡ t ++ b':' ∷ r) × IsParts t r)
parse_handle_iff h t r = (parse_handle_sound h t r, parse_handle_complete h t r)

-- A generated handle gives its tenant and its encoded random part back, when the tenant is not
-- empty and has no colon and the encoding is not empty.
pub parse_handle-generate :
    (base64 : Str → Str) (tenant random h : Str)
    → IsParts tenant (base64 random)
    → generate_handle_with_tenant base64 tenant (some random) ≡ ok h
    → parse_handle h ≡ some (tenant, base64 random)
unfolding generate_handle_with_tenant
parse_handle-generate base64 tenant random h parts e =
    let spell : tenant ++ b':' ∷ base64 random ≡ h = cc in
    parse_handle_complete h tenant (base64 random) (sym spell, parts)
