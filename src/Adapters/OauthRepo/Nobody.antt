-- ===== src/Adapters/OauthRepo/Nobody.antt =====
-- internal/adapters/persistence/surrealdb/oauth_repo.go behind the flows of oauth_service.go: for
-- whom an external login is.
use loxtu_go.Base.{
  ℕ, Option, none, some, [], ◌∷◌, Str, bytes, str_eq, ◌≡◌, ◌⊎◌, inl, inr, refl, ap, sym, ◌∙◌,
  Option-cases, Bool-cases,
}
use loxtu_go.Base.Map
use loxtu_go.Base.Map.{Map}
use loxtu_go.Base.Result.{Result, ok, err, panics}
use loxtu_go.Adapters.Rows.{Cell, text_of, first_map}
use loxtu_go.Adapters.OauthRepo.{
  OauthTable, TimeText, account_of, account_of_row, link_vars, created, find_by_provider,
  link_unless, link_or_create, oauth_repo,
}
use loxtu_go.Identity.Oauth.{
  OauthAccount, OauthProvider, OauthService, OauthState, OauthToken, OauthUserInfo, complete_auth,
  complete_found, complete_state, exchanged, link_account, linked, state_expired,
}

-- What a table gives after a creation: a row whose user is the text `$uid`, or what it gave before.
abbrev pub IsAppending : {W : Type 0} → OauthTable W → Type 0
IsAppending {W} table =
    (vars : Map Cell) (provider sub : Str) (w : W)
    → let after = table.select_link provider sub (table.create_link vars w).0 in
      ((rm : Map Cell) × (after ≡ some (some rm ∷ []))
        × (Map.lookup (bytes "user_id") rm ≡ Map.lookup (bytes "uid") vars))
      ⊎ (after ≡ table.select_link provider sub w)

module _ {W : Type 0} (times : TimeText) (now : ℕ) (table : OauthTable W)
    (appends : IsAppending table) where
  -- No link of the table names a user.
  abbrev pub NamesNobody : W → Type 0
  NamesNobody w =
      (provider sub : Str) (a : OauthAccount)
      → find_by_provider times now table provider sub w ≡ some a
      → a.user_id ≡ []

  -- An answer that is for nobody, if it is not an error, behind which the table names nobody.
  abbrev IsForNobody : W × Result Str → Type 0
  IsForNobody (w, r) = ((user_id : Str) → r ≡ ok user_id → user_id ≡ []) × NamesNobody w

  created-NamesNobody :
      (a : OauthAccount) (w : W)
      → a.user_id ≡ []
      → NamesNobody w
      → NamesNobody (table.create_link (link_vars times now a) w).0
  unfolding find_by_provider account_of account_of_row link_vars first_map text_of Map.lookup bytes
      str_eq
  created-NamesNobody a w empty nobody provider sub b e =
      elim (appends (link_vars times now a) provider sub w) [
        | inl (rm, new, same) ↦
            let found : some (account_of_row times rm) ≡ some b = rw new at e in
            let named : (account_of_row times rm).user_id ≡ a.user_id = ap text_of same in
            let kept : account_of_row times rm ≡ b = cc in
            sym (ap (λ x. x.user_id) kept) ∙ (named ∙ empty)
        | inr old ↦ nobody provider sub b (rw old at e)
      ]

  created-IsForNobody :
      (user_id : Str) (p : W × Option Str)
      → user_id ≡ []
      → NamesNobody p.0
      → IsForNobody (created user_id p)
  unfolding created
  created-IsForNobody user_id (w, none) empty kept = ((λ u e. cc), kept)
  created-IsForNobody user_id (w, some t) empty kept = ((λ u e. absurd cc), kept)

  link_or_create-IsForNobody :
      (a : OauthAccount) (w : W)
      → a.user_id ≡ []
      → NamesNobody w
      → IsForNobody (link_or_create times now table a w)
  unfolding link_or_create link_unless
  link_or_create-IsForNobody a w empty nobody =
      elim (Option-cases (find_by_provider times now table a.provider a.provider_sub w)) [
        | inl e ↦
            rw (e, link_unless)
              (created-IsForNobody a.user_id (table.create_link (link_vars times now a) w) empty
                (created-NamesNobody a w empty nobody))
        | inr (x, e) ↦
            rw (e, link_unless)
              ((λ user_id f. let found = nobody a.provider a.provider_sub x e in cc), nobody)
      ]

  -- What an attempt to complete a flow may answer, in the same sense.
  abbrev IsLoginOfNobody : W × Result (OauthUserInfo × Str) → Type 0
  IsLoginOfNobody (w, r) =
      ((info : OauthUserInfo) (user_id : Str) → r ≡ ok (info, user_id) → user_id ≡ [])
      × NamesNobody w

  linked-IsLoginOfNobody :
      (info : OauthUserInfo) (p : W × Result Str) → IsForNobody p → IsLoginOfNobody (linked info p)
  unfolding linked
  linked-IsLoginOfNobody info (w, ok u) (empty, kept) =
      ((λ i user_id e. let same = empty u refl in cc), kept)
  linked-IsLoginOfNobody info (w, err t) (empty, kept) = ((λ i user_id e. absurd cc), kept)
  linked-IsLoginOfNobody info (w, panics) (empty, kept) = ((λ i user_id e. absurd cc), kept)

  link_account-IsLoginOfNobody :
      (provider : Str) (st : OauthState) (w : W) (r : Result OauthUserInfo)
      → NamesNobody w
      → IsLoginOfNobody (link_account (oauth_repo times now table) provider st w r)
  unfolding link_account
  link_account-IsLoginOfNobody provider st w (ok info) nobody =
      linked-IsLoginOfNobody info _ (link_or_create-IsForNobody _ w refl nobody)
  link_account-IsLoginOfNobody provider st w (err t) nobody = ((λ i user_id e. absurd cc), nobody)
  link_account-IsLoginOfNobody provider st w panics nobody = ((λ i user_id e. absurd cc), nobody)

  exchanged-IsLoginOfNobody :
      (p : OauthProvider) (provider : Str) (st : OauthState) (w : W) (r : Result OauthToken)
      → NamesNobody w
      → IsLoginOfNobody (exchanged (oauth_repo times now table) p provider st w r)
  unfolding exchanged
  exchanged-IsLoginOfNobody p provider st w (ok token) nobody =
      link_account-IsLoginOfNobody provider st w (p.get_user_info token.access_token) nobody
  exchanged-IsLoginOfNobody p provider st w (err t) nobody = ((λ i user_id e. absurd cc), nobody)
  exchanged-IsLoginOfNobody p provider st w panics nobody = ((λ i user_id e. absurd cc), nobody)

  complete_state-IsLoginOfNobody :
      (p : OauthProvider) (provider code : Str) (at_now : ℕ) (st : OauthState) (w : W)
      → NamesNobody w
      → IsLoginOfNobody (complete_state (oauth_repo times now table) p provider code at_now w st)
  unfolding complete_state
  complete_state-IsLoginOfNobody p provider code at_now st w nobody =
      elim (Bool-cases (state_expired at_now st)) [
        | inl t ↦ rw t ((λ i user_id e. absurd cc), nobody)
        | inr f ↦ rw f (exchanged-IsLoginOfNobody p provider st w _ nobody)
      ]

  complete_found-IsLoginOfNobody :
      (s : OauthService W) (p : OauthProvider) (provider state code : Str) (at_now : ℕ) (w : W)
      (o : Option OauthState)
      → s.accounts ≡ oauth_repo times now table
      → NamesNobody w
      → IsLoginOfNobody (complete_found s p provider state code at_now w o).1
  unfolding complete_found
  complete_found-IsLoginOfNobody s p provider state code at_now w none same nobody =
      ((λ i user_id e. absurd cc), nobody)
  complete_found-IsLoginOfNobody s p provider state code at_now w (some st) same nobody =
      rw same (complete_state-IsLoginOfNobody p provider code at_now st w nobody)

  -- Every login through an external provider is for nobody: over a table whose links name no user,
  -- CompleteAuth gives the empty text for the identifier of the user whenever it succeeds, and still
  -- no link names a user behind it. The service is wired to this store, and what a search reads
  -- behind a creation is a row with the user of the creation, or what it read before.
  pub complete_auth-NamesNobody :
      (s : OauthService W) (provider state code : Str) (at_now : ℕ) (w : W)
      → s.accounts ≡ oauth_repo times now table
      → NamesNobody w
      → let p = (complete_auth s provider state code at_now w).1 in
        ((info : OauthUserInfo) (user_id : Str) → p.1 ≡ ok (info, user_id) → user_id ≡ [])
        × NamesNobody p.0
  unfolding complete_auth
  complete_auth-NamesNobody s provider state code at_now w same nobody =
      elim (Option-cases (Map.lookup provider s.providers)) [
        | inl e ↦ rw (e, complete_auth) ((λ i user_id f. absurd cc), nobody)
        | inr (p, e) ↦
            rw (e, complete_auth)
              (complete_found-IsLoginOfNobody s p provider state code at_now w
                (Map.lookup state s.states) same nobody)
      ]
