-- ===== src/Adapters/OauthRepo.antt =====
-- internal/adapters/persistence/surrealdb/oauth_repo.go: the links to external accounts over a
-- table. What the database makes of the four statements is a parameter, and so are the clock and the
-- two directions of RFC 3339.
pub mod Nobody
mod Tests
use loxtu_go.Base.{
  ℕ, Bool, true, false, Option, none, some, List, [], ◌∷◌, ◌++◌, Str, bytes, is_empty,
  if◌then◌else◌, ◌==◌,
}
use loxtu_go.Base.Map
use loxtu_go.Base.Map.{Map}
use loxtu_go.Base.Result.{Result, ok, err}
use loxtu_go.Adapters.Rows.{
  Cell, string, Row, text_of, zero_time, parsed_or_zero, parse_time, first_map,
}
use loxtu_go.Identity.Oauth.{OauthAccount, OauthAccountStore}

-- The statements on `oauth_accounts`. A read is `none` on an error, and a write gives its error.
pub record OauthTable (W : Type 0) : Type 0 where
  pub select_link : Str → Str → W → Option (List Row)
  pub select_links : Str → W → Option (List Row)
  pub create_link : Map Cell → W → W × Option Str
  pub delete_link : Str → Str → W → W × Option Str

-- `time.Time` and RFC 3339.
pub record TimeText : Type 0 where
  pub parse : Str → Option ℕ
  pub format : ℕ → Str

unfoldable pub account_of_row : TimeText → Map Cell → OauthAccount
account_of_row times rm = record {
  id = text_of (Map.lookup (bytes "id") rm);
  user_id = text_of (Map.lookup (bytes "user_id") rm);
  tenant_id = text_of (Map.lookup (bytes "tenant_id") rm);
  provider = text_of (Map.lookup (bytes "provider") rm);
  provider_sub = text_of (Map.lookup (bytes "provider_sub") rm);
  created_at = parsed_or_zero (parse_time times.parse (Map.lookup (bytes "created_at") rm));
}

unfoldable pub account_of : TimeText → Option (Map Cell) → Option OauthAccount
account_of times none = none
account_of times (some rm) = some (account_of_row times rm)

-- A row that is not a map is left out.
unfoldable pub accounts_in : TimeText → List Row → List OauthAccount
accounts_in times [] = []
accounts_in times (none ∷ rows) = accounts_in times rows
accounts_in times (some rm ∷ rows) = account_of_row times rm ∷ accounts_in times rows

unfoldable pub accounts_of : TimeText → Option (List Row) → Option (List OauthAccount)
accounts_of times none = none
accounts_of times (some rows) = some (accounts_in times rows)

unfoldable pub link_id : OauthAccount → Str
link_id a =
    if is_empty a.id then bytes "oauth_" ++ (a.provider ++ (bytes "_" ++ a.provider_sub)) else a.id

unfoldable pub link_time : ℕ → OauthAccount → ℕ
link_time now a = if a.created_at == zero_time then now else a.created_at

-- The parameters of the statement, which makes a datetime of `$ca` itself.
unfoldable pub link_vars : TimeText → ℕ → OauthAccount → Map Cell
link_vars times now a =
    (bytes "id", string (link_id a))
    ∷ (bytes "uid", string a.user_id)
    ∷ (bytes "tid", string a.tenant_id)
    ∷ (bytes "prov", string a.provider)
    ∷ (bytes "sub", string a.provider_sub)
    ∷ (bytes "ca", string (times.format (link_time now a)))
    ∷ []

unfoldable pub created : {W : Type 0} → Str → W × Option Str → W × Result Str
created user_id (w, none) = (w, ok user_id)
created user_id (w, some e) = (w, err e)

module _ {W : Type 0} (times : TimeText) (now : ℕ) (table : OauthTable W) where
  -- An error and a missing row are both `none`.
  unfoldable pub find_by_provider : Str → Str → W → Option OauthAccount
  find_by_provider provider sub w = account_of times (first_map (table.select_link provider sub w))

  pub find_by_user_id : Str → W → Option (List OauthAccount)
  find_by_user_id user_id w = accounts_of times (table.select_links user_id w)

  unfoldable pub link_unless : OauthAccount → Option OauthAccount → W → W × Result Str
  link_unless a (some existing) w = (w, ok existing.user_id)
  link_unless a none w = created a.user_id (table.create_link (link_vars times now a) w)

  unfoldable pub link_or_create : OauthAccount → W → W × Result Str
  link_or_create a w = link_unless a (find_by_provider a.provider a.provider_sub w) w

  pub unlink : Str → Str → W → W × Option Str
  unlink user_id provider w = table.delete_link user_id provider w

  -- A pool that is nil gives an error everywhere, as a failing query does, and is left out.
  abbrev pub oauth_repo : OauthAccountStore W
  oauth_repo = record { link_or_create = link_or_create }
