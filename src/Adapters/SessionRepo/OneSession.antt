-- ===== src/Adapters/SessionRepo/OneSession.antt =====
-- internal/adapters/persistence/surrealdb/session_repo.go: one session for each user.
use loxtu_go.Base.{
  ℕ, ◌/◌, ◌*◌, ◌++◌, true, false, Option, none, some, List, [], ◌∷◌, Str, bytes, str_eq, str_eq_iff,
  str_eq_refl, ◌⊎◌, if◌then◌else◌, ◌≡◌, ◌≢◌, refl, ap, sym, ◌∙◌, inl, inr, Bool-cases,
}
use loxtu_go.Base.Clock.{second}
use loxtu_go.Base.Map
use loxtu_go.Base.Map.{Map}
use loxtu_go.Adapters.Rows.{Cell, string, Row, text_of, parsed_or_zero, parse_time, first_map}
use loxtu_go.Adapters.SessionRepo.{
  SessionTable, session_of, find_by_token_hash, revoked_first, create,
}
use loxtu_go.Identity.Session.{Session}

-- What a row holds of a session.
pub record StoredSession : Type 0 where
  pub user_id : Str
  pub expires_at : ℕ
  pub created_at : ℕ

-- A stored session as the driver gives it; `moment` is how it gives a time.
abbrev pub row_of : (ℕ → Cell) → StoredSession → Map Cell
row_of moment r =
    (bytes "user_id", string r.user_id)
    ∷ (bytes "expires_at", moment r.expires_at)
    ∷ (bytes "created_at", moment r.created_at)
    ∷ []

-- The row with the other columns that `SELECT *` gives.
abbrev pub answer_of : (ℕ → Cell) → Map Cell → Option StoredSession → List Row
answer_of moment others none = []
answer_of moment others (some r) = some (row_of moment r ++ others) ∷ []

abbrev pub unless_of : Str → Option StoredSession → Option StoredSession
unless_of user_id none = none
unless_of user_id (some r) = if str_eq r.user_id user_id then none else some r

-- What the statements do: one that succeeds does what it says; a deletion that fails may have been
-- done; and a creation leaves the other hashes alone. `now` is the clock of the database.
pub record IsTable {W : Type 0} (moment : ℕ → Cell) (now : ℕ) (table : SessionTable W)
    : Type 0 where
  pub content : Str → W → Option StoredSession
  pub select :
      (h : Str) (w : W)
      → (others : Map Cell) × (table.select_hash h w ≡ some (answer_of moment others (content h w)))
  pub content-delete :
      (h u : Str) (w : W)
      → (content h (table.delete_user u w).0 ≡ unless_of u (content h w))
        ⊎ (((table.delete_user u w).1 ≡ false)
            × (content h (table.delete_user u w).0 ≡ content h w))
  pub content-create :
      (h u : Str) (t : ℕ) (w : W)
      → (table.create_session u h t w).1 ≡ true
      → content h (table.create_session u h t w).0
        ≡ some (record { user_id = u; expires_at = t * second; created_at = now })
  pub content-create_ne :
      (h j u : Str) (t : ℕ) (w : W)
      → j ≢ h
      → content j (table.create_session u h t w).0 ≡ content j w

module _ (parse : Str → Option ℕ) (moment : ℕ → Cell) where
  -- A moment as the code reads it: Go's zero time, if the driver gives it in a form that is not read.
  abbrev pub read_moment : ℕ → ℕ
  read_moment t = parsed_or_zero (parse_time parse (some (moment t)))

  abbrev pub session : Str → StoredSession → Session
  session h r = record {
    user_id = r.user_id;
    token_hash = h;
    expires_at = read_moment r.expires_at;
    created_at = read_moment r.created_at;
  }

  abbrev pub session_in : Str → Option StoredSession → Option Session
  session_in h none = none
  session_in h (some r) = some (session h r)

  answer_session :
      (h : Str) (others : Map Cell) (o : Option StoredSession)
      → session_of parse h (first_map (some (answer_of moment others o))) ≡ session_in h o
  unfolding session_of first_map text_of Map.lookup bytes str_eq
  answer_session h others none = refl
  answer_session h others (some r) = refl

  unless_of-other :
      (h u : Str) (o : Option StoredSession) (x : Session)
      → session_in h (unless_of u o) ≡ some x
      → x.user_id ≢ u
  unless_of-other h u none x e = absurd cc
  unless_of-other h u (some r) x e = elim (Bool-cases (str_eq r.user_id u)) [
    | inl t ↦ absurd (cc (rw t at e))
    | inr f ↦ λ same.
        let kept : some (session h r) ≡ some x = rw f at e in
        absurd (cc (f, (str_eq_iff r.user_id u).1 cc))
  ]

  pub unless_of-some :
      (h u : Str) (o : Option StoredSession) (x : Session)
      → session_in h (unless_of u o) ≡ some x
      → session_in h o ≡ some x
  unless_of-some h u none x e = e
  unless_of-some h u (some r) x e = elim (Bool-cases (str_eq r.user_id u)) [
    | inl t ↦ absurd (cc (rw t at e))
    | inr f ↦ rw f at e
  ]

  pub unless_of-own :
      (h : Str) (o : Option StoredSession) (x : Session)
      → session_in h o ≡ some x
      → session_in h (unless_of x.user_id o) ≡ none
  unless_of-own h none x e = refl
  unless_of-own h (some r) x e =
      let same : r.user_id ≡ x.user_id = cc in rw (same, str_eq_refl x.user_id) refl

module _ {W : Type 0} (parse : Str → Option ℕ) (moment : ℕ → Cell) (now : ℕ)
    (table : SessionTable W) (laws : IsTable moment now table) where
  pub find-content :
      (h : Str) (w : W)
      → find_by_token_hash parse table h w ≡ session_in parse moment h (laws.content h w)
  unfolding find_by_token_hash
  find-content h w =
      let (others, e) = laws.select h w in
      ap (λ a. session_of parse h (first_map a)) e
      ∙ answer_session parse moment h others (laws.content h w)

  pub deleted :
      (h u : Str) (w : W)
      → (table.delete_user u w).1 ≡ true
      → laws.content h (table.delete_user u w).0 ≡ unless_of u (laws.content h w)
  deleted h u w done = elim (laws.content-delete h u w) [
    | inl e ↦ e
    | inr (undone, _) ↦ absurd (cc (done, undone))
  ]

  revoked_named :
      (u : Str) (w : W) → u ≢ [] → revoked_first parse table u w ≡ (table.delete_user u w).0
  unfolding revoked_first
  revoked_named [] w named = absurd (named refl)
  revoked_named (c ∷ cs) w named = refl

  -- A new session takes the place of the earlier ones: behind Create for a user with an identifier,
  -- if neither the deletion nor the creation fails and no search does, the session is found by the
  -- hash of its token,
  -- with its expiry cut to whole seconds and the time of the database, both as the driver's form of
  -- a time is read, which is the zero time for a form that parseTime does not know; and no session
  -- that is found by another hash is of this user. Create drops the error of the deletion.
  pub find-create_session :
      (s : Session) (w : W)
      → s.user_id ≢ []
      → (table.delete_user s.user_id w).1 ≡ true
      → (create parse table s w).1 ≡ true
      → (find_by_token_hash parse table s.token_hash (create parse table s w).0
          ≡ some (record s {
            expires_at = read_moment parse moment (s.expires_at / second * second);
            created_at = read_moment parse moment now;
          }))
        × ((h : Str) (x : Session)
            → h ≢ s.token_hash
            → find_by_token_hash parse table h (create parse table s w).0 ≡ some x
            → x.user_id ≢ s.user_id)
  unfolding create
  find-create_session s w named done made = (
    find-content s.token_hash _
        ∙ ap (session_in parse moment s.token_hash) (
            laws.content-create s.token_hash s.user_id (s.expires_at / second)
              (revoked_first parse table s.user_id w) made),
    (λ h x other found. unless_of-other parse moment h s.user_id (laws.content h w) x (
        sym (
          ap (session_in parse moment h) (
            laws.content-create_ne s.token_hash h s.user_id (s.expires_at / second)
              (revoked_first parse table s.user_id w) other
            ∙ ap (laws.content h) (revoked_named s.user_id w named)
            ∙ deleted h s.user_id w done))
        ∙ sym (find-content h _)
        ∙ found)),
  )
