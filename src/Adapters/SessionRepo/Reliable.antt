-- ===== src/Adapters/SessionRepo/Reliable.antt =====
-- internal/adapters/persistence/surrealdb/session_repo.go keeps what the token service asks of its
-- session store.
use loxtu_go.Base.{ℕ, ◌/◌, ◌*◌, Option, some, [], ◌∷◌, Str, ◌≡◌, refl, ap, sym, ◌∙◌, inl, inr}
use loxtu_go.Base.Clock.{second}
use loxtu_go.Adapters.Rows.{Cell}
use loxtu_go.Adapters.SessionRepo.{SessionTable, revoked_first, create, session_repo}
use loxtu_go.Adapters.SessionRepo.OneSession.{
  IsTable, session, session_in, unless_of-some, unless_of-own, find-content, deleted,
}
use loxtu_go.Identity.Ports.{IsReliable}
use loxtu_go.Identity.Session.{Session}

module _ {W : Type 0} (parse : Str → Option ℕ) (moment : ℕ → Cell) (now : ℕ)
    (table : SessionTable W) (laws : IsTable moment now table) where
  -- What is found behind a deletion, failed or not, was found before.
  found_before :
      (h u : Str) (w : W) (x : Session)
      → session_in parse moment h (laws.content h (table.delete_user u w).0) ≡ some x
      → session_in parse moment h (laws.content h w) ≡ some x
  found_before h u w x e = elim (laws.content-delete h u w) [
    | inl gone ↦
        unless_of-some parse moment h u (laws.content h w) x
          (ap (session_in parse moment h) (sym gone) ∙ e)
    | inr (_, kept) ↦ ap (session_in parse moment h) (sym kept) ∙ e
  ]

  found_before_first :
      (h u : Str) (w : W) (x : Session)
      → session_in parse moment h (laws.content h (revoked_first parse table u w)) ≡ some x
      → session_in parse moment h (laws.content h w) ≡ some x
  unfolding revoked_first
  found_before_first h [] w x e = e
  found_before_first h (c ∷ cs) w x e = found_before h (c ∷ cs) w x e

  -- The store of sessions keeps what the token service asks of it, whatever calls of the database
  -- fail and whatever the driver's form of a time is: a creation that succeeds is found for its
  -- user, no creation brings another session in, and a revocation that succeeds removes the
  -- sessions of its user.
  pub session_repo-IsReliable : IsReliable (session_repo parse table)
  unfolding create
  session_repo-IsReliable = record {
    find-create = λ s w made. (
      session parse moment s.token_hash (record {
        user_id = s.user_id;
        expires_at = s.expires_at / second * second;
        created_at = now;
      }),
      find-content parse moment now table laws s.token_hash _
          ∙ ap (session_in parse moment s.token_hash) (
              laws.content-create s.token_hash s.user_id (s.expires_at / second)
                (revoked_first parse table s.user_id w) made),
      refl,
    );
    find-create_ne = λ s x h w other found.
        find-content parse moment now table laws h w
        ∙ found_before_first h s.user_id w x (
            ap (session_in parse moment h) (
              sym (
                laws.content-create_ne s.token_hash h s.user_id (s.expires_at / second)
                  (revoked_first parse table s.user_id w) other))
            ∙ sym (find-content parse moment now table laws h _)
            ∙ found);
    find-revoke = λ h x w found done.
        find-content parse moment now table laws h _
        ∙ ap (session_in parse moment h) (deleted parse moment now table laws h x.user_id w done)
        ∙ unless_of-own parse moment h (laws.content h w) x
            (sym (find-content parse moment now table laws h w) ∙ found);
  }
