-- ===== src/Adapters/UserRepo/Tests.antt =====
-- A table of users in memory, and the theorems of the store over it at concrete inputs.
use loxtu_go.Base.{
  true, Option, none, some, List, [], ◌∷◌, Str, bytes, str_eq, if◌then◌else◌, ◌≡◌, refl, ap, ◌∙◌,
}
use loxtu_go.Base.Map
use loxtu_go.Base.Map.{Map, lookup-insert_self, lookup-delete}
use loxtu_go.Base.Result.{ok}
use loxtu_go.Base.Strings.{hex_encode}
use loxtu_go.Adapters.Rows.{Cell, Row, text_of}
use loxtu_go.Adapters.UserRepo.{
  UserTable, Draws, identified, stored, create_hashed, create_keyed, create, find_by, erase,
}
use loxtu_go.Adapters.UserRepo.Columns.{Assignments, create_columns, user_from}
use loxtu_go.Adapters.UserRepo.Table.{IsEcho, IsTable, Reads, echoed, written, overwritten}
use loxtu_go.Adapters.UserRepo.RoundTrip.{read_back, find-create_user}
use loxtu_go.Adapters.UserRepo.Shredding.{shredded, find-erase}
use loxtu_go.Identity.Hash.{sha256_hex}
use loxtu_go.Identity.Token.{or_default}
use loxtu_go.Identity.User.{User, zero_user}

-- The driver gives back what it was given.
abbrev same : Cell → Cell
same c = c

same-IsEcho : IsEcho same
unfolding text_of
same-IsEcho = record { text_of-echo = λ s. refl }

-- A row with the columns set; an earlier assignment counts.
assigned : Map Cell → Assignments → Map Cell
assigned rm [] = rm
assigned rm ((k, some c) ∷ cols) = (k, c) ∷ assigned rm cols
assigned rm ((k, none) ∷ cols) = Map.delete k (assigned rm cols)

lookup-assigned :
    (rm : Map Cell) (cols : Assignments) (k : Str)
    → Map.lookup k (assigned rm cols) ≡ overwritten same (λ j. Map.lookup j rm) cols k
unfolding assigned overwritten Map.lookup
lookup-assigned rm [] k = refl
lookup-assigned rm ((j, some c) ∷ cols) k =
    ap (λ o. if str_eq j k then some c else o) (lookup-assigned rm cols k)
lookup-assigned rm ((j, none) ∷ cols) k =
    lookup-delete j k (assigned rm cols)
    ∙ ap (λ o. if str_eq j k then none else o) (lookup-assigned rm cols k)

written-overwritten :
    (cols : Assignments) (k : Str) → overwritten same (λ j. none) cols k ≡ written same cols k
unfolding written overwritten
written-overwritten [] k = refl
written-overwritten ((j, o) ∷ cols) k =
    ap (λ x. if str_eq j k then echoed same o else x) (written-overwritten cols k)

abbrev answer : Option (Map Cell) → List Row
answer none = []
answer (some rm) = some rm ∷ []

abbrev replaced : Str → Assignments → Option (Map Cell) → Map (Map Cell) → Map (Map Cell)
replaced id cols none w = w
replaced id cols (some rm) w = Map.insert id (assigned rm cols) w

-- Rows by the identifiers of their users.
abbrev users : UserTable (Map (Map Cell))
users = record {
  create_user = λ cols w.
      (Map.insert (text_of (written same cols (bytes "user_id"))) (assigned [] cols) w, true);
  select_user = λ column value w. some (answer (Map.lookup value w));
  update_user = λ id cols w. (replaced id cols (Map.lookup id w) w, true);
}

update-Reads :
    (id : Str) (cols : Assignments) (row : Str → Option Cell) (w : Map (Map Cell))
    (o : Option (Map Cell)) (rm : Map Cell) (rest : List Row)
    → some (answer o) ≡ some (some rm ∷ rest)
    → ((k : Str) → Map.lookup k rm ≡ row k)
    → Reads users id (replaced id cols o w) (overwritten same row cols)
update-Reads id cols row w none rm rest found values = absurd cc
update-Reads id cols row w (some m) rm rest found values =
    let equal : m ≡ rm = cc in
    (
      assigned m cols,
      [],
      ap (λ o. some (answer o)) (lookup-insert_self id (assigned m cols) w),
      (λ k.
          lookup-assigned m cols k
          ∙ ap (λ x. overwritten same (λ j. Map.lookup j x) cols k) equal
          ∙ λ i. overwritten same (λ j. values j i) cols k),
    )

users-IsTable : IsTable same users
unfolding text_of Map.lookup
users-IsTable = record {
  reads-create = λ id cols w named fresh done. (
    written same cols,
    (
      assigned [] cols,
      [],
      rw named (ap (λ o. some (answer o)) (lookup-insert_self id (assigned [] cols) w)),
      (λ k. lookup-assigned [] cols k ∙ written-overwritten cols k),
    ),
    (λ k set. refl),
  );
  reads-update = λ id cols row w reads done.
      update-Reads id cols row w (Map.lookup id w) reads.0 reads.1 reads.2 reads.3;
}

abbrev plain : Str → Str
plain s = s

abbrev draws : Draws
draws = record {
  new_id = bytes "0007";
  data_key = ok (bytes "key", bytes "wrapped");
  random = bytes "zz";
  now = 5;
}

abbrev a_user : User
a_user = record zero_user {
  email_hash = bytes "hash";
  email_ciphertext = bytes "sealed";
  login_count = 2;
}

abbrev made_user : User
made_user = record a_user {
  user_id = bytes "0007";
  user_id_hash = bytes "30303037";
  encrypted_dek = bytes "wrapped";
  masked_email = bytes "***";
}

abbrev filled : Map (Map Cell)
filled = Map.insert (bytes "0007") (assigned [] (create_columns made_user 5)) []

created_it : create plain users draws a_user [] ≡ (filled, some made_user)
unfolding create create_keyed create_hashed stored identified create_columns written bytes str_eq
    text_of sha256_hex hex_encode or_default
created_it = refl

find-create_user_example :
    find_by users (bytes "user_id") (bytes "0007") filled
    ≡ some (read_back same same-IsEcho 5 made_user)
unfolding bytes Map.lookup
find-create_user_example =
    find-create_user plain same same-IsEcho users users-IsTable draws a_user made_user [] filled
      created_it (λ e. cc) refl

filled-Reads : Reads users (bytes "0007") filled (written same (create_columns made_user 5))
unfolding Map.lookup written
filled-Reads = (
  assigned [] (create_columns made_user 5),
  [],
  ap (λ o. some (answer o))
      (lookup-insert_self (bytes "0007") (assigned [] (create_columns made_user 5)) []),
  (λ k.
      lookup-assigned [] (create_columns made_user 5) k
      ∙ written-overwritten (create_columns made_user 5) k),
)

find-erase_example :
    (find_by users (bytes "user_id") (bytes "0007") filled
      ≡ some (user_from (written same (create_columns made_user 5))))
    × (find_by users
          (bytes "user_id")
          (bytes "0007")
          (erase users (bytes "zz") 9 (bytes "0007") filled).0
        ≡ some
            (shredded same (bytes "zz") 9 (user_from (written same (create_columns made_user 5)))))
unfolding bytes erase
find-erase_example =
    find-erase same same-IsEcho users users-IsTable (bytes "zz") 9 (bytes "0007") filled
      (written same (create_columns made_user 5)) filled-Reads refl
