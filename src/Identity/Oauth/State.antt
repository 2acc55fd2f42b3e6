-- ===== src/Identity/Oauth/State.antt =====
-- The states of internal/core/identity/oauth_service.go over any sequence of calls, the last call
-- first.
use loxtu_go.Base.{
  ℕ, Option, none, some, List, [], ◌∷◌, Str, bytes, ◌≡◌, ◌≢◌, inl, inr, refl, ◌∙◌, All,
  Option-cases,
}
use loxtu_go.Base.Map
use loxtu_go.Base.Map.{
  Map, lookup-insert, lookup-insert_ne, lookup-insert_cases, lookup-delete_some, lookup-delete_none,
  lookup-delete_self,
}
use loxtu_go.Base.Result.{err}
use loxtu_go.Identity.Oauth.{
  OauthProvider, OauthService, OauthState, generate_state, begin_auth, begin_found, complete_auth,
  complete_found,
}

-- A call: its provider and other arguments, what it draws, and the clock.
pub data Call : Type 0 where
  begin : Str → Str → Str → Str → Str → ℕ → Call
  complete : Str → Str → Str → ℕ → Call

-- The call does not draw this state.
abbrev pub DrawsOther : Str → Call → Type 0
DrawsOther state (begin provider tenant uri first second now) = generate_state first ≢ state
DrawsOther state (complete provider other code now) = Unit

module _ {W : Type 0} where
  abbrev pub step : Call → OauthService W × W → OauthService W × W
  step (begin provider tenant uri first second now) (s, w) =
      ((begin_auth s provider tenant uri first second now).0, w)
  step (complete provider state code now) (s, w) =
      let r = complete_auth s provider state code now w in (r.0, r.1.0)

  abbrev pub after : List Call → OauthService W × W → OauthService W × W
  after [] x = x
  after (c ∷ calls) x = step c (after calls x)

  -- The provider is known, and the state is not.
  abbrev Spent : Str → OauthProvider → Str → OauthService W → Type 0
  Spent name p state s = (Map.lookup name s.providers ≡ some p) × (Map.lookup state s.states ≡ none)

  begin_auth-Spent :
      (name state provider tenant uri first second : Str) (p : OauthProvider) (now : ℕ)
      (s : OauthService W)
      → generate_state first ≢ state
      → Spent name p state s
      → Spent name p state (begin_auth s provider tenant uri first second now).0
  unfolding begin_auth begin_found
  begin_auth-Spent name state provider tenant uri first second p now s ne (known, none_yet) =
      elim (Option-cases (Map.lookup provider s.providers)) [
        | inl e ↦ rw (e, begin_auth) (known, none_yet)
        | inr (q, e) ↦
            rw (e, begin_auth)
              (known, lookup-insert_ne (generate_state first) state _ s.states ne ∙ none_yet)
      ]

  complete_found-Spent :
      (name state provider other code : Str) (p q : OauthProvider) (now : ℕ) (s : OauthService W)
      (w : W) (o : Option OauthState)
      → Spent name p state s
      → Spent name p state (complete_found s q provider other code now w o).0
  unfolding complete_found
  complete_found-Spent name state provider other code p q now s w none h = h
  complete_found-Spent name state provider other code p q now s w (some st) (known, none_yet) =
      (known, lookup-delete_none other state s.states none_yet)

  complete_auth-Spent :
      (name state provider other code : Str) (p : OauthProvider) (now : ℕ) (s : OauthService W)
      (w : W)
      → Spent name p state s
      → Spent name p state (complete_auth s provider other code now w).0
  unfolding complete_auth
  complete_auth-Spent name state provider other code p now s w h =
      elim (Option-cases (Map.lookup provider s.providers)) [
        | inl e ↦ rw (e, complete_auth) h
        | inr (q, e) ↦
            rw (e, complete_auth)
              (complete_found-Spent name state provider other code p q now s w
                (Map.lookup other s.states) h)
      ]

  after-Spent :
      (name state : Str) (p : OauthProvider) (calls : List Call) (x : OauthService W × W)
      → All (DrawsOther state) calls
      → Spent name p state x.0
      → Spent name p state (after calls x).0
  after-Spent name state p [] x h s = s
  after-Spent name state p (begin provider tenant uri first second now ∷ calls) x (ne, h) s =
      begin_auth-Spent name state provider tenant uri first second p now (after calls x).0 ne
        (after-Spent name state p calls x h s)
  after-Spent name state p (complete provider other code now ∷ calls) x (_, h) s =
      complete_auth-Spent name state provider other code p now (after calls x).0 (after calls x).1
        (after-Spent name state p calls x h s)

  complete_auth-Spent_self :
      (name state code : Str) (p : OauthProvider) (now : ℕ) (s : OauthService W) (w : W)
      → Map.lookup name s.providers ≡ some p
      → Spent name p state (complete_auth s name state code now w).0
  unfolding complete_auth complete_found
  complete_auth-Spent_self name state code p now s w known =
      elim (Option-cases (Map.lookup state s.states)) [
        | inl e ↦ rw (known, e, complete_auth) (known, e)
        | inr (st, e) ↦ rw (known, e, complete_auth) (known, lookup-delete_self state s.states)
      ]

  -- A state completes one flow at most. Once a call of `CompleteAuth` with a known provider has
  -- presented a state, whatever that call returned, and after any calls none of which draws the
  -- same state again, presenting it a second time is answered "invalid or expired state" and
  -- changes nothing.
  pub state_single_use :
      (name state code again : Str) (p : OauthProvider) (now later : ℕ) (s : OauthService W) (w : W)
      (calls : List Call)
      → Map.lookup name s.providers ≡ some p
      → All (DrawsOther state) calls
      → let x = after calls (step (complete name state code now) (s, w)) in
        complete_auth x.0 name state again later x.1
        ≡ (x.0, (x.1, err (bytes "invalid or expired state")))
  unfolding complete_auth complete_found
  state_single_use name state code again p now later s w calls known h =
      let (q, e) =
        after-Spent name state p calls (step (complete name state code now) (s, w)) h
          (complete_auth-Spent_self name state code p now s w known) in
      rw (q, e, complete_auth) refl
