-- ===== src/Identity/Passkey/Spent.antt =====
-- A challenge that is not kept: the steps of internal/core/identity/passkey_service.go on it.
use loxtu_go.Base.{true, none, Str, ◌≡◌, refl, ◌∙◌, inl, inr, Option-cases}
use loxtu_go.Base.Map
use loxtu_go.Base.Map.{Map, lookup-insert_ne, lookup-delete_self, lookup-delete_none}
use loxtu_go.Base.Result.{Result, ok, err, panics}
use loxtu_go.Identity.Passkey.{PasskeyService}
use loxtu_go.Identity.Passkey.Ceremony.{begun, take_session}
use loxtu_go.Identity.User.{PasskeyUser}

-- The value of a call that succeeds is not this challenge.
abbrev pub Issues : {A : Type 0} → Result (A × Str) → Str → Type 0
Issues (ok r) challenge = r.1 ≡ challenge
Issues (err e) challenge = ⊥
Issues panics challenge = ⊥

module _ {S W : Type 0} where
  -- The relying party is set, and the challenge is not kept.
  abbrev pub Spent : Str → PasskeyService S W → Type 0
  Spent challenge s = (s.has_wa ≡ true) × (Map.lookup challenge s.sessions ≡ none)

  pub begun-Spent :
      {A : Type 0} (f : S → Str) (challenge : Str) (s : PasskeyService S W) (text : Str)
      (user : PasskeyUser) (tenant_id : Str) (r : Result (A × S))
      → ¬ Issues (begun f s text user tenant_id r).1 challenge
      → Spent challenge s
      → Spent challenge (begun f s text user tenant_id r).0
  unfolding begun
  begun-Spent f challenge s text user tenant_id (ok (options, session)) other (on, gone) =
      (on, lookup-insert_ne (f session) challenge _ s.sessions other ∙ gone)
  begun-Spent f challenge s text user tenant_id (err e) other h = h
  begun-Spent f challenge s text user tenant_id panics other h = h

  pub take_session-Spent :
      (challenge taken : Str) (s : PasskeyService S W)
      → Spent challenge s
      → Spent challenge (take_session s taken).0
  unfolding take_session
  take_session-Spent challenge taken s (on, gone) =
      elim (Option-cases (Map.lookup taken s.sessions)) [
        | inl e ↦ rw (e, take_session) (on, gone)
        | inr (cs, e) ↦
            rw (e, take_session) (on, lookup-delete_none taken challenge s.sessions gone)
      ]

  pub take_session-Spent_self :
      (challenge : Str) (s : PasskeyService S W)
      → s.has_wa ≡ true
      → Spent challenge (take_session s challenge).0
  unfolding take_session
  take_session-Spent_self challenge s on = elim (Option-cases (Map.lookup challenge s.sessions)) [
    | inl e ↦ rw (e, take_session) (on, e)
    | inr (cs, e) ↦ rw (e, take_session) (on, lookup-delete_self challenge s.sessions)
  ]

  pub take_session-of_Spent :
      (challenge : Str) (s : PasskeyService S W)
      → Spent challenge s
      → take_session s challenge ≡ (s, none)
  unfolding take_session
  take_session-of_Spent challenge s (on, gone) = rw (gone, take_session) refl
