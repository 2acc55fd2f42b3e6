-- ===== src/Identity/Oauth/Origin.antt =====
-- Where the states of internal/core/identity/oauth_service.go come from.
use loxtu_go.Base.{
  ℕ, ◌*◌, ◌-◌, ◌≤◌, Option, none, some, List, [], ◌∷◌, Str, ◌≡◌, ◌⊎◌, inl, inr, refl, ap, ltb,
  Option-cases, Bool-cases, arith,
}
use loxtu_go.Base.Clock.{minute}
use loxtu_go.Base.Map
use loxtu_go.Base.Map.{
  Map, lookup-insert, lookup-insert_ne, lookup-insert_cases, lookup-delete_some, lookup-delete_none,
  lookup-delete_self,
}
use loxtu_go.Base.Result.{ok}
use loxtu_go.Identity.Oauth.State.{Call, begin, complete, after}
use loxtu_go.Identity.Oauth.{
  OauthProvider, OauthService, OauthState, OauthUserInfo, generate_state, state_expired, begin_auth,
  begin_found, complete_auth, complete_found, complete_state,
}

-- The call began a flow with this state, at most ten minutes before the moment.
abbrev pub BeganLately : Str → ℕ → Call → Type 0
BeganLately state now (begin provider tenant uri first second t) =
    (generate_state first ≡ state) × (now - t ≤ 10 * minute)
BeganLately state now (complete provider other code t) = ⊥

abbrev pub Some : (Call → Type 0) → List Call → Type 0
Some P [] = ⊥
Some P (c ∷ calls) = P c ⊎ Some P calls

-- The call began a flow with this state at this moment.
abbrev Began : Str → ℕ → Call → Type 0
Began state t (begin provider tenant uri first second now) =
    (generate_state first ≡ state) × (now ≡ t)
Began state t (complete provider other code now) = ⊥

began_lately :
    (state : Str) (t now : ℕ) (calls : List Call)
    → now - t ≤ 10 * minute
    → Some (Began state t) calls
    → Some (BeganLately state now) calls
began_lately state t now [] h e = absurd e
began_lately state t now (begin provider tenant uri first second moment ∷ calls) h (inl (same, e)) =
    inl (same, rw e h)
began_lately state t now (complete provider other code moment ∷ calls) h (inl e) = absurd e
began_lately state t now (c ∷ calls) h (inr e) = inr (began_lately state t now calls h e)

module _ {W : Type 0} where
  -- Every state that is kept was drawn by a call that began a flow, at the moment that is kept.
  abbrev Tracks : List Call → OauthService W → Type 0
  Tracks calls s =
      (state : Str) (st : OauthState)
      → Map.lookup state s.states ≡ some st
      → Some (Began state st.created_at) calls

  begin_auth-Tracks :
      (provider tenant uri first second : Str) (now : ℕ) (calls : List Call) (s : OauthService W)
      → Tracks calls s
      → Tracks
          (begin provider tenant uri first second now ∷ calls)
          (begin_auth s provider tenant uri first second now).0
  unfolding begin_auth begin_found
  begin_auth-Tracks provider tenant uri first second now calls s h state st e =
      elim (Option-cases (Map.lookup provider s.providers)) [
        | inl f ↦ inr (h state st (rw (f, begin_auth) at e))
        | inr (q, f) ↦
            elim (lookup-insert_cases (generate_state first) state _ st s.states
              (rw (f, begin_auth) at e)) [
                | inl (same, kept) ↦ inl (same, ap (λ x. x.created_at) kept)
                | inr before ↦ inr (h state st before)
              ]
      ]

  complete_found-Tracks :
      (provider other code : Str) (p : OauthProvider) (now : ℕ) (calls : List Call)
      (s : OauthService W) (w : W) (o : Option OauthState)
      → Tracks calls s
      → Tracks calls (complete_found s p provider other code now w o).0
  unfolding complete_found
  complete_found-Tracks provider other code p now calls s w none h state st e = h state st e
  complete_found-Tracks provider other code p now calls s w (some x) h state st e =
      h state st (lookup-delete_some other state st s.states e)

  complete_auth-Tracks :
      (provider other code : Str) (now : ℕ) (calls : List Call) (s : OauthService W) (w : W)
      → Tracks calls s
      → Tracks calls (complete_auth s provider other code now w).0
  unfolding complete_auth
  complete_auth-Tracks provider other code now calls s w h =
      elim (Option-cases (Map.lookup provider s.providers)) [
        | inl f ↦ rw (f, complete_auth) h
        | inr (p, f) ↦
            rw (f, complete_auth)
              (complete_found-Tracks provider other code p now calls s w (Map.lookup other s.states)
                h)
      ]

  after-Tracks :
      (calls : List Call) (x : OauthService W × W)
      → x.0.states ≡ []
      → Tracks calls (after calls x).0
  unfolding Map.lookup
  after-Tracks [] x e state st f = absurd (cc (rw e at f))
  after-Tracks (begin provider tenant uri first second now ∷ calls) x e state st f =
      begin_auth-Tracks provider tenant uri first second now calls (after calls x).0
        (after-Tracks calls x e) state st f
  after-Tracks (complete provider other code now ∷ calls) x e state st f = inr (
      complete_auth-Tracks provider other code now calls (after calls x).0 (after calls x).1
        (after-Tracks calls x e) state st f)

  -- A flow that completes has a state that is kept and not ten minutes old.
  complete_found-ok :
      (p : OauthProvider) (name state code : Str) (now : ℕ) (s : OauthService W) (w : W)
      (o : Option OauthState) (r : OauthUserInfo × Str)
      → (complete_found s p name state code now w o).1.1 ≡ ok r
      → (st : OauthState) × (o ≡ some st) × (now - st.created_at ≤ 10 * minute)
  unfolding complete_found complete_state state_expired
  complete_found-ok p name state code now s w none r e = absurd cc
  complete_found-ok p name state code now s w (some st) r e =
      elim (Bool-cases (ltb (10 * minute) (now - st.created_at))) [
        | inl t ↦ absurd (cc (rw (t, complete_found, complete_state) at e))
        | inr f ↦ (st, refl, ground (arith, f))
      ]

  complete_auth-ok :
      (name state code : Str) (now : ℕ) (s : OauthService W) (w : W) (r : OauthUserInfo × Str)
      → (complete_auth s name state code now w).1.1 ≡ ok r
      → (st : OauthState) × (Map.lookup state s.states ≡ some st)
        × (now - st.created_at ≤ 10 * minute)
  unfolding complete_auth
  complete_auth-ok name state code now s w r e = elim (Option-cases (Map.lookup name s.providers)) [
    | inl f ↦ absurd (cc (rw (f, complete_auth) at e))
    | inr (p, f) ↦
        complete_found-ok p name state code now s w (Map.lookup state s.states) r
          (rw (f, complete_auth) at e)
  ]

  -- After any calls from a service that keeps no state, a call of `CompleteAuth` succeeds only with
  -- a state that one of these calls of `BeginAuth` drew, at most ten minutes before.
  pub complete_began :
      (name state code : Str) (now : ℕ) (s : OauthService W) (w : W) (calls : List Call)
      (r : OauthUserInfo × Str)
      → s.states ≡ []
      → let x = after calls (s, w) in
        (complete_auth x.0 name state code now x.1).1.1 ≡ ok r → Some (BeganLately state now) calls
  complete_began name state code now s w calls r none_yet e =
      let x = after calls (s, w) in
      let (st, kept, young) = complete_auth-ok name state code now x.0 x.1 r e in
      began_lately state st.created_at now calls young
        (after-Tracks calls (s, w) none_yet state st kept)
