-- ===== src/Handlers/Tenant/Laws.antt =====
-- Which addresses have a tenant: internal/interfaces/http/handlers/tenant_resolver.go.
use loxtu_go.Base.{
  ◌≤◌, false, Option, none, some, [], ◌∷◌, ◌++◌, Str, All, is_empty, length, ltb, ◌||◌, ◌≡◌, ◌≢◌,
  refl, inl, inr, Bool-cases, arith,
}
use loxtu_go.Base.Strings.{trim_space, to_lower, split_first, split_first-eq-some}
use loxtu_go.Handlers.Tenant.{
  is_malformed, domain_of_parts, domain_of_trimmed, extract_domain, code_or_empty,
  resolve_tenant_by_email,
}

-- An address of at most 254 bytes: a local part, the first at-sign, and a domain that has a dot
-- and neither starts nor ends with one.
abbrev pub IsAddress : Str → Str → Str → Type 0
IsAddress email local domain =
    (email ≡ local ++ b'@' ∷ domain)
    × All (λ c. c ≢ b'@') local
    × (local ≢ [])
    × (is_malformed domain ≡ false)
    × (length email ≤ 254)

ne_of_not_empty : (s : Str) → is_empty s ≡ false → s ≢ []
ne_of_not_empty [] e h = absurd cc
ne_of_not_empty (c ∷ s) e h = cc

domain_of_parts-some :
    (local domain : Str)
    → domain_of_parts (some (local, domain)) ≢ []
    → (is_empty local ≡ false)
      × (is_malformed domain ≡ false)
      × (domain_of_parts (some (local, domain)) ≡ to_lower domain)
unfolding domain_of_parts
domain_of_parts-some local domain h = elim (Bool-cases (is_empty local || is_empty domain)) [
  | inl t ↦ absurd (h (rw t refl))
  | inr f ↦ elim (Bool-cases (is_malformed domain)) [
    | inl t ↦ absurd (h (rw (f, t) refl))
    | inr g ↦ (ground arith, g, rw (f, g) refl)
  ]
]

domain_of_parts-none : domain_of_parts none ≡ []
unfolding domain_of_parts
domain_of_parts-none = refl

domain_of_parts-found :
    (email : Str) (o : Option (Str × Str))
    → split_first b'@' email ≡ o
    → length email ≤ 254
    → domain_of_parts o ≢ []
    → (local : Str) × (domain : Str) × (domain_of_parts o ≡ to_lower domain)
      × IsAddress email local domain
domain_of_parts-found email none e len h = absurd (h domain_of_parts-none)
domain_of_parts-found email (some (local, domain)) e len h =
    let (some_local, formed, same) = domain_of_parts-some local domain h in
    let (spell, free) = split_first-eq-some b'@' email local domain e in
    (local, domain, same, (spell, free, ne_of_not_empty local some_local, formed, len))

extract_domain-found :
    (email : Str)
    → extract_domain email ≢ []
    → (local : Str) × (domain : Str) × (extract_domain email ≡ to_lower domain)
      × IsAddress (trim_space email) local domain
unfolding extract_domain domain_of_trimmed
extract_domain-found email h =
    let e = trim_space email in
    elim (Bool-cases (is_empty e || ltb 254 (length e))) [
      | inl t ↦ absurd (h (rw t refl))
      | inr f ↦
          let short : length e ≤ 254 = ground (arith, f) in
          rw f (
            domain_of_parts-found e (split_first b'@' e) refl short
              (rw (f, extract_domain, domain_of_trimmed) at h))
    ]

-- A tenant comes from the domain of a well-formed address. When a resolver gives a tenant for an
-- address, the address, without the white space around it, is a local part that is not empty, the
-- first at-sign and a domain that has a dot and neither starts nor ends with one, of at most 254
-- bytes in all, and the tenant is the repository's for that domain in lower case.
pub resolve_tenant_sound :
    (resolve_by_domain : Str → Option Str) (email : Str)
    → resolve_tenant_by_email (some resolve_by_domain) email ≢ []
    → (local : Str) × (domain : Str) × (resolve_tenant_by_email (some resolve_by_domain) email
        ≡ code_or_empty (resolve_by_domain (to_lower domain)))
      × IsAddress (trim_space email) local domain
unfolding resolve_tenant_by_email
resolve_tenant_sound resolve_by_domain email h =
    elim (Bool-cases (is_empty (extract_domain email))) [
      | inl t ↦ absurd (h (rw t refl))
      | inr f ↦
          let (local, domain, same, address) =
            extract_domain-found email (ne_of_not_empty (extract_domain email) f) in
          (local, domain, rw (f, same) refl, address)
    ]
