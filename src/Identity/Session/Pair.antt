-- ===== src/Identity/Session/Pair.antt =====
-- The pair of tokens of internal/core/identity/session.go, from what it draws.
use loxtu_go.Base.{ℕ, List, [], Str, bytes, ◌≡◌, ◌≢◌, sym, ◌∙◌}
use loxtu_go.Base.Result.{Result, ok, err, panics, ◌>>=◌}
use loxtu_go.Base.Strings.{hex_encode}
use loxtu_go.Identity.Hash.{hash_token}
use loxtu_go.Identity.Session.{
  Jwt, IsJwt, TokenPair, Call, wrap, issue_refresh_token, token_pair, issue_access_token,
  issue_tokens,
}
use loxtu_go.Identity.Session.Laws.{issue-validate}

module _ (sha256 : Str → Str) where
  abbrev pair_of : ℕ → Result Str → Str → Result TokenPair
  pair_of now access b = wrap (bytes "access token: ") access >>= λ a.
      ok (token_pair now a (hex_encode b, hash_token sha256 (hex_encode b)))

  pair_of-hash :
      (now : ℕ) (access : Result Str) (b : Str) (pair : TokenPair)
      → pair_of now access b ≡ ok pair
      → pair.refresh_hash ≡ hash_token sha256 (hex_encode b)
  unfolding wrap
  pair_of-hash now (ok a) b pair e = cc
  pair_of-hash now (err t) b pair e = absurd cc
  pair_of-hash now panics b pair e = absurd cc

module _ (sha256 : Str → Str) (jwt : Jwt) where
  issue_tokens_drawn :
      (user_id tenant_id role : Str) (permissions : List Str) (ttl : ℕ) (call : Call) (b : Str)
      → call.random ≡ ok b
      → issue_tokens sha256 jwt user_id tenant_id role permissions ttl call
        ≡ pair_of sha256 call.now
            (issue_access_token sha256 jwt user_id tenant_id role permissions ttl call)
            b
  unfolding issue_tokens issue_refresh_token hash_token
  issue_tokens_drawn user_id tenant_id role permissions ttl call b e = rw e

  -- Whenever a pair is issued, its hash is that of the plain token that was drawn.
  pub issue_tokens-hash :
      (user_id tenant_id role : Str) (permissions : List Str) (ttl : ℕ) (call : Call) (b : Str)
      (pair : TokenPair)
      → call.random ≡ ok b
      → issue_tokens sha256 jwt user_id tenant_id role permissions ttl call ≡ ok pair
      → pair.refresh_hash ≡ hash_token sha256 (hex_encode b)
  issue_tokens-hash user_id tenant_id role permissions ttl call b pair e issued =
      pair_of-hash sha256 call.now
        (issue_access_token sha256 jwt user_id tenant_id role permissions ttl call) b pair
        (sym (issue_tokens_drawn user_id tenant_id role permissions ttl call b e) ∙ issued)

  -- A pair is issued whenever there is a secret and a draw.
  pub issue_tokens_total :
      (jwt_laws : IsJwt jwt) (user_id tenant_id role : Str) (permissions : List Str) (ttl : ℕ)
      (call : Call) (b : Str)
      → call.secret ≢ []
      → call.random ≡ ok b
      → (access : Str) × (issue_tokens sha256 jwt user_id tenant_id role permissions ttl call
          ≡ ok (token_pair call.now access (hex_encode b, hash_token sha256 (hex_encode b))))
  unfolding wrap
  issue_tokens_total jwt_laws user_id tenant_id role permissions ttl call b h e =
      let (access, issued, _) =
        issue-validate sha256 jwt jwt_laws user_id tenant_id role permissions ttl call.now call h in
      (access, issue_tokens_drawn user_id tenant_id role permissions ttl call b e ∙ rw issued)
