-- ===== src/Adapters/Pool/Records/RoundTrip.antt =====
-- Reading and printing identifiers of records, as pool.go does it.
use loxtu_go.Base.{
  ℕ, ◌-◌, ◌<◌, ◌≡◌, ◌≢◌, ◌↔◌, refl, ◌∙◌, true, false, Option, none, some, [], ◌∷◌, ◌++◌, Str, bytes,
  has_prefix, str_eq_refl, lt→ltb, leb, length, drop, arith, All, All-append, length-append,
  take-append, drop-append, Bool-cases, inl, inr,
}
use loxtu_go.Base.Strings.{
  split_first, contains_byte, trim_space, trim_space_of_All, is_space, has_suffix,
  split_first-append, split_first-eq-some,
}
use loxtu_go.Adapters.Pool.Records.{
  other, checked_record_id, get_record_id, is_gap, split_gap, respelled, format_printed,
  format_record_id,
}

-- A text without the byte.
abbrev pub Lacks : ℕ → Str → Type 0
Lacks b s = All (λ c. c ≢ b) s

length_pos : (s : Str) → s ≢ [] → 0 < length s
length_pos [] ne = absurd (ne refl)
length_pos (c ∷ s) ne = omega arith

contains_byte-of_Lacks : (b : ℕ) (s : Str) → Lacks b s → contains_byte s b ≡ false
contains_byte-of_Lacks b [] h = refl
contains_byte-of_Lacks b (c ∷ s) (n, h) = ground (arith, contains_byte-of_Lacks b s h)

checked_record_id-some :
    (a b table id : Str)
    → checked_record_id (some (a, b)) ≡ some (table, id)
    → (a ≡ table) × (b ≡ id) × (table ≢ []) × (id ≢ [])
unfolding checked_record_id
checked_record_id-some [] b table id e = absurd cc
checked_record_id-some (x ∷ a) [] table id e = absurd cc
checked_record_id-some (x ∷ a) (y ∷ b) table id e =
    let p : x ∷ a ≡ table = cc in let q : y ∷ b ≡ id = cc in (p, q, (λ r. cc), λ r. cc)

checked_record_id_of_ne :
    (table id : Str)
    → table ≢ []
    → id ≢ []
    → checked_record_id (some (table, id)) ≡ some (table, id)
unfolding checked_record_id
checked_record_id_of_ne [] id ne_table ne_id = absurd (ne_table refl)
checked_record_id_of_ne (t ∷ ts) [] ne_table ne_id = absurd (ne_id refl)
checked_record_id_of_ne (t ∷ ts) (i ∷ is) ne_table ne_id = refl

get_record_id_clean :
    (s : Str)
    → s ≢ []
    → contains_byte s b'{' ≡ false
    → get_record_id s ≡ checked_record_id (split_first b':' s)
unfolding get_record_id
get_record_id_clean [] ne clean = absurd (ne refl)
get_record_id_clean (c ∷ s) ne clean = rw clean

append_ne : (a b : Str) (c : ℕ) → a ++ c ∷ b ≢ []
append_ne [] b c e = cc
append_ne (x ∷ a) b c e = cc

get_record_id_split :
    (table id : Str)
    → table ≢ []
    → id ≢ []
    → Lacks b':' table
    → contains_byte (table ++ b':' ∷ id) b'{' ≡ false
    → get_record_id (table ++ b':' ∷ id) ≡ some (table, id)
get_record_id_split table id ne_table ne_id free clean =
    get_record_id_clean (table ++ b':' ∷ id) (append_ne table id b':') clean
    ∙ rw (split_first-append b':' table id free) (checked_record_id_of_ne table id ne_table ne_id)

-- What a text that is read is made of.
get_record_id-some :
    (s table id : Str)
    → get_record_id s ≡ some (table, id)
    → (s ≡ table ++ b':' ∷ id)
      × (table ≢ [])
      × (id ≢ [])
      × Lacks b':' table
      × (contains_byte s b'{' ≡ false)
unfolding get_record_id
get_record_id-some [] table id e = absurd cc
get_record_id-some (c ∷ s) table id e = elim (Bool-cases (contains_byte (c ∷ s) b'{')) [
  | inl t ↦ absurd (cc (rw t at e))
  | inr f ↦ go f (split_first b':' (c ∷ s)) refl
]
  where
    go :
        contains_byte (c ∷ s) b'{' ≡ false
        → (o : Option (Str × Str)) → split_first b':' (c ∷ s) ≡ o
        → (c ∷ s ≡ table ++ b':' ∷ id)
          × (table ≢ [])
          × (id ≢ [])
          × Lacks b':' table
          × (contains_byte (c ∷ s) b'{' ≡ false)
    go f none g = absurd (cc (rw (f, g, checked_record_id) at e))
    go f (some (a, b)) g =
        let (p, q, ne_table, ne_id) = checked_record_id-some a b table id (rw (f, g) at e) in
        let (spell, free) = split_first-eq-some b':' (c ∷ s) a b g in
        (spell ∙ cc (p, q), ne_table, ne_id, rw p at free, f)

-- A text is a record's identifier with the two parts exactly if it is spelt from them with a colon
-- in between, neither part is empty, the table has no colon, and there is no brace.
pub get_record_id_iff :
    (s table id : Str)
    → (get_record_id s ≡ some (table, id)) ↔ (
        (s ≡ table ++ b':' ∷ id)
        × (table ≢ [])
        × (id ≢ [])
        × Lacks b':' table
        × (contains_byte s b'{' ≡ false))
get_record_id_iff s table id = (
  get_record_id-some s table id,
  λ q. rw q.0 (get_record_id_split table id q.1 q.2 q.3 (rw q.0 at q.4)),
)

no_gaps :
    (s : Str)
    → All (λ c. (c ≢ b' ') × (c ≢ b',') × (c ≢ b':') × (c ≢ b'{')) s
    → All (λ c. is_gap c ≡ false) s
unfolding is_gap
no_gaps [] h = tt
no_gaps (c ∷ s) (n, h) = (ground arith, no_gaps s h)

no_colons :
    (s : Str) → All (λ c. (c ≢ b' ') × (c ≢ b',') × (c ≢ b':') × (c ≢ b'{')) s → Lacks b':' s
no_colons [] h = tt
no_colons (c ∷ s) (n, h) = (n.2, no_colons s h)

no_braces :
    (s : Str) → All (λ c. (c ≢ b' ') × (c ≢ b',') × (c ≢ b':') × (c ≢ b'{')) s → Lacks b'{' s
no_braces [] h = tt
no_braces (c ∷ s) (n, h) = (n.3, no_braces s h)

no_spaces :
    (s : Str)
    → All (λ c. (is_space c ≡ false) × (c ≢ b'{')) s
    → All (λ c. is_space c ≡ false) s × Lacks b'{' s
no_spaces [] h = (tt, tt)
no_spaces (c ∷ s) (n, h) = let (a, b) = no_spaces s h in ((n.0, a), (n.1, b))

respelled_of_ne :
    (s table rest : Str)
    → table ≢ []
    → respelled s (some (table, rest)) ≡ table ++ b':' ∷ trim_space rest
unfolding respelled
respelled_of_ne s [] rest ne = absurd (ne refl)
respelled_of_ne s (c ∷ t) rest ne = refl

split_gap-append :
    (a b : Str) → All (λ c. is_gap c ≡ false) a → split_gap (a ++ b' ' ∷ b) ≡ some (a, b)
unfolding split_gap is_gap
split_gap-append [] b h = refl
split_gap-append (c ∷ a) b (n, h) = rw (n, split_gap-append a b h) refl

leb_one : (n : ℕ) → 0 < n → leb 1 n ≡ true
leb_one n h = ground arith

-- The last byte of a text, and what stands in front of it.
drop_last_of_append : (a : Str) (c : ℕ) → drop (length (a ++ c ∷ []) - 1) (a ++ c ∷ []) ≡ c ∷ []
drop_last_of_append a c =
    let one : length (a ++ c ∷ []) - 1 ≡ length a = omega (arith, length-append a (c ∷ [])) in
    rw one (drop-append a (c ∷ []))

has_suffix-append_one : (a : Str) (c : ℕ) → has_suffix (a ++ c ∷ []) (c ∷ []) ≡ true
unfolding has_suffix
has_suffix-append_one a c =
    rw
      (
        drop_last_of_append a c,
        str_eq_refl (c ∷ []),
        leb_one (length (a ++ c ∷ [])) (omega (arith, length-append a (c ∷ []))),
      )
      refl

format_printed_braced :
    (inner : Str)
    → inner ≢ []
    → format_printed (b'{' ∷ inner ++ b'}' ∷ [])
      ≡ respelled (b'{' ∷ inner ++ b'}' ∷ []) (split_gap inner)
unfolding format_printed bytes has_prefix
format_printed_braced inner ne =
    let all : Str = b'{' ∷ inner ++ b'}' ∷ [] in
    let two : length all - 2 ≡ length inner = omega (arith, length-append inner (b'}' ∷ [])) in
    rw
      (
        lt→ltb 2 (length all) (omega (arith, length-append inner (b'}' ∷ []), length_pos inner ne)),
        has_suffix-append_one (b'{' ∷ inner) b'}',
        two,
        take-append inner (b'}' ∷ []),
      )
      refl

-- What `%v` prints of an identifier, "{table id}", is read back as the identifier, if neither part
-- is empty, the table has no space, comma, colon or opening brace, and the identifier in it has no
-- white space and no opening brace.
pub get_record_id-format_record_id :
    (table id : Str)
    → table ≢ []
    → id ≢ []
    → All (λ c. (c ≢ b' ') × (c ≢ b',') × (c ≢ b':') × (c ≢ b'{')) table
    → All (λ c. (is_space c ≡ false) × (c ≢ b'{')) id
    → get_record_id (format_record_id (other (b'{' ∷ (table ++ b' ' ∷ id) ++ b'}' ∷ [])))
      ≡ some (table, id)
unfolding format_record_id
get_record_id-format_record_id table id ne_table ne_id clean fit =
    rw
      (
        format_printed_braced (table ++ b' ' ∷ id) (append_ne table id b' '),
        split_gap-append table id (no_gaps table clean),
      )
      (rw (respelled_of_ne _ table id ne_table, trim_space_of_All id (no_spaces id fit).0)
        (get_record_id_split table id ne_table ne_id (no_colons table clean) (
          contains_byte-of_Lacks b'{' (table ++ b':' ∷ id) (
            All-append (λ c. c ≢ b'{') table (b':' ∷ id) (no_braces table clean)
              ((λ e. absurd (omega arith)), (no_spaces id fit).1)))))
