-- ===== src/Identity/OauthManager/Laws.antt =====
-- Two logins of one address: internal/core/identity/oauth_manager.go.
use loxtu_go.Base.{false, Option, none, some, [], Str, bytes, is_empty, ◌≡◌, ◌≢◌, refl, ap, ◌∙◌}
use loxtu_go.Base.Result.{Result, ok, err, panics}
use loxtu_go.Base.Strings.{hex_encode}
use loxtu_go.Identity.Hash.{email_hash, hash_token}
use loxtu_go.Identity.Ports.{UserStore}
use loxtu_go.Identity.Session.{Jwt, IsJwt, TokenPair, Call, access_token_ttl, token_pair}
use loxtu_go.Identity.Session.Pair.{issue_tokens_total}
use loxtu_go.Identity.Token.{or_default}
use loxtu_go.Identity.User.{User}
use loxtu_go.Identity.OauthManager.{
  ExternalIdentity, new_user, with_role, created, found_or_created, issued, issue_for_user,
  link_resolved, link_and_issue,
}

-- A user who was created is found by the hash of the address.
abbrev pub KeepsCreated : {W : Type 0} → UserStore W → Type 0
KeepsCreated {W} users =
    (u stored : User) (w : W)
    → (users.create u w).1 ≡ some stored
    → users.find_by_email_hash u.email_hash (users.create u w).0 ≡ some stored

module _ (sha256 : Str → Str) (jwt : Jwt) {W : Type 0} where
  issued-user :
      (w : W) (u v : User) (r : Result TokenPair) (pair : TokenPair)
      → (issued sha256 jwt w u r).1 ≡ ok (pair, v)
      → ((issued sha256 jwt w u r).0 ≡ w) × (u ≡ v)
  unfolding issued
  issued-user w u v (ok p) pair e = (refl, cc)
  issued-user w u v (err t) pair e = absurd cc
  issued-user w u v panics pair e = absurd cc

  -- A login that created its user leaves a world in which the user is found.
  created_lem :
      (users : UserStore W) (keeps : KeepsCreated users) (hash tenant role : Str) (call : Call)
      (w : W) (pair : TokenPair) (u : User)
      → users.find_by_email_hash hash w ≡ none
      → (link_resolved sha256 jwt users hash tenant role call w).1 ≡ ok (pair, u)
      → users.find_by_email_hash hash (link_resolved sha256 jwt users hash tenant role call w).0
        ≡ some u
  unfolding link_resolved found_or_created created issue_for_user
  created_lem users keeps hash tenant role call w pair u fresh e =
      rw (fresh, link_resolved, found_or_created)
        (go (users.create (new_user hash tenant role call.now) w)
          (λ stored. keeps (new_user hash tenant role call.now) stored w)
          (rw (fresh, link_resolved, found_or_created) at e))
    where
      go :
          (p : W × Option User)
          → ((stored : User) → p.1 ≡ some stored → users.find_by_email_hash hash p.0 ≡ some stored)
          → (issue_for_user sha256 jwt tenant call (created p)).1 ≡ ok (pair, u)
          → users.find_by_email_hash hash (issue_for_user sha256 jwt tenant call (created p)).0
            ≡ some u
      go (w', none) kept h = absurd cc
      go (w', some stored) kept h =
          let (same, q) = issued-user w' stored u _ pair h in rw (same, ← q) (kept stored refl)

  -- A user who was found gets a pair, and the world stays.
  found_lem :
      (jwt_laws : IsJwt jwt) (users : UserStore W) (hash tenant role b : Str) (call : Call) (w : W)
      (u : User)
      → users.find_by_email_hash hash w ≡ some u
      → call.secret ≢ []
      → call.random ≡ ok b
      → (pair : TokenPair) × (link_resolved sha256 jwt users hash tenant role call w
          ≡ (w, ok (pair, with_role role u)))
  unfolding link_resolved found_or_created issue_for_user issued
  found_lem jwt_laws users hash tenant role b call w u found h e =
      let v = with_role role u in
      let (access, made) =
        issue_tokens_total sha256 jwt jwt_laws v.user_id tenant v.role v.permissions
          access_token_ttl call b h e in
      let resolved : found_or_created users hash tenant role call.now w
            (users.find_by_email_hash hash w)
          ≡ (w, ok v) =
        rw (found, found_or_created) refl in
      (
        token_pair call.now access (hex_encode b, hash_token sha256 (hex_encode b)),
        ap (issue_for_user sha256 jwt tenant call) resolved ∙ ap (issued sha256 jwt w v) made,
      )

  -- A second login of one address finds the user whom the first created. When the store keeps what
  -- it creates, a first login of an unknown address that succeeds with a user, and then a login of
  -- an address with the same hash, through any provider and for any tenant and role, succeeds too,
  -- changes nothing in the store, and returns that user, with the asked role where the user has none.
  pub link-link :
      (jwt_laws : IsJwt jwt) (users : UserStore W) (keeps : KeepsCreated users)
      (tenant other_tenant role other_role b : Str) (ext other : ExternalIdentity)
      (call later : Call) (w : W) (pair : TokenPair) (u : User)
      → users.find_by_email_hash (email_hash sha256 ext.email) w ≡ none
      → is_empty ext.email ≡ false
      → is_empty other.email ≡ false
      → email_hash sha256 other.email ≡ email_hash sha256 ext.email
      → (link_and_issue sha256 jwt users tenant ext role call w).1 ≡ ok (pair, u)
      → later.secret ≢ []
      → later.random ≡ ok b
      → let after = (link_and_issue sha256 jwt users tenant ext role call w).0 in
        (fresh : TokenPair) × (link_and_issue sha256 jwt users other_tenant other other_role later
            after
          ≡ (after, ok (fresh, with_role (or_default (bytes "worker") other_role) u)))
  unfolding link_and_issue
  link-link jwt_laws users keeps tenant other_tenant role other_role b ext other call later w pair u
        unknown some_email other_email same e h drawn =
      let t = or_default (bytes "public") tenant in
      let r = or_default (bytes "worker") role in
      let t' = or_default (bytes "public") other_tenant in
      let r' = or_default (bytes "worker") other_role in
      let hash = email_hash sha256 ext.email in
      let first = link_resolved sha256 jwt users hash t r call w in
      let e1 : first.1 ≡ ok (pair, u) = rw (some_email, link_and_issue) at e in
      let known : users.find_by_email_hash hash first.0 ≡ some u =
        created_lem users keeps hash t r call w pair u unknown e1 in
      let (fresh, second) = found_lem jwt_laws users hash t' r' b later first.0 u known h drawn in
      (fresh, rw (some_email, other_email, same, link_and_issue) second)
