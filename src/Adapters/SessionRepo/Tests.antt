-- ===== src/Adapters/SessionRepo/Tests.antt =====
-- A table of sessions in memory, and a second login over it.
use loxtu_go.Base.{
  ◌+◌, ◌*◌, ◌/◌, true, Option, none, some, [], ◌∷◌, Str, bytes, str_eq, ◌≡◌, ◌≢◌, refl, ap, sym,
  inl, inr, Bool-cases,
}
use loxtu_go.Base.Clock.{second}
use loxtu_go.Base.Map
use loxtu_go.Base.Map.{Map, lookup-insert_self, lookup-insert_ne}
use loxtu_go.Adapters.Rows.{Cell, string, time, parse_time, parsed_or_zero}
use loxtu_go.Adapters.SessionRepo.{SessionTable, find_by_token_hash, create}
use loxtu_go.Adapters.SessionRepo.OneSession.{
  StoredSession, answer_of, unless_of, IsTable, find-create_session,
}
use loxtu_go.Identity.Session.{Session}

-- The rows by their hashes; a row may be there no longer.
abbrev Sessions : Type 0
Sessions = Map (Option StoredSession)

abbrev joined : Option (Option StoredSession) → Option StoredSession
joined none = none
joined (some o) = o

content : Str → Sessions → Option StoredSession
content h w = joined (Map.lookup h w)

without : Str → Sessions → Sessions
without u [] = []
without u ((h, o) ∷ w) = (h, unless_of u o) ∷ without u w

content-without : (h u : Str) (w : Sessions) → content h (without u w) ≡ unless_of u (content h w)
unfolding content without Map.lookup
content-without h u [] = refl
content-without h u ((j, o) ∷ w) = elim (Bool-cases (str_eq j h)) [
  | inl t ↦ rw t refl
  | inr f ↦ rw f (content-without h u w)
]

-- A column that FindByTokenHash does not read.
abbrev others : Map Cell
others = (bytes "id", string []) ∷ []

abbrev table : SessionTable Sessions
table = record {
  create_session = λ u h t w. (
    Map.insert h (some (record { user_id = u; expires_at = t * second; created_at = 7 })) w,
    true,
  );
  select_hash = λ h w. some (answer_of time others (content h w));
  delete_user = λ u w. (without u w, true);
  delete_hash = λ h w. (Map.delete h w, true);
  delete_expired = λ now w. (w, true);
}

table-IsTable : IsTable time 7 table
unfolding content
table-IsTable = record {
  content = content;
  select = λ h w. (others, refl);
  content-delete = λ h u w. inl (content-without h u w);
  content-create = λ h u t w made. ap joined (lookup-insert_self h _ w);
  content-create_ne = λ h j u t w other. ap joined (lookup-insert_ne h j _ w (λ e. other (sym e)));
}

abbrev a_session : Session
a_session = record {
  user_id = bytes "u";
  token_hash = bytes "new";
  expires_at = 5 * second + 3;
  created_at = 0;
}

abbrev earlier : Sessions
earlier =
    (bytes "old", some (record { user_id = bytes "u"; expires_at = second; created_at = 1 })) ∷ []

find-create_session_example :
    (find_by_token_hash
        (λ s. none)
        table
        (bytes "new")
        (create (λ s. none) table a_session earlier).0
      ≡ some (record a_session { expires_at = (5 * second + 3) / second * second; created_at = 7 }))
    × ((h : Str) (x : Session)
        → h ≢ bytes "new"
        → find_by_token_hash (λ s. none) table h (create (λ s. none) table a_session earlier).0
          ≡ some x
        → x.user_id ≢ bytes "u")
unfolding bytes create parse_time parsed_or_zero
find-create_session_example =
    find-create_session (λ s. none) time 7 table table-IsTable a_session earlier (λ e. cc) refl refl
