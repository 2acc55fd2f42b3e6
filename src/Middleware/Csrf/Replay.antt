-- ===== src/Middleware/Csrf/Replay.antt =====
-- What a checked request needs to pass, and that its token passes once.
use loxtu_go.Base.{
  Bool, true, false, ◌||◌, Option, none, some, List, [], ◌∷◌, Str, str_eq_iff, is_empty, ◌≡◌, ◌≢◌,
  ◌↔◌, refl, ap, ◌∙◌, arith, All,
}
use loxtu_go.Base.Map
use loxtu_go.Base.Map.{Map, lookup-insert, lookup-insert_self, lookup-delete, lookup-delete_self}
use loxtu_go.Base.Strings.{trim_space, trim_space_of_All, hex_encode, hex_encode-no_space, IsByte}
use loxtu_go.Middleware.Request.{Request}
use loxtu_go.Middleware.Csrf.{
  generate_csrf_token, next, is_issued, is_public, is_api, is_read, is_write, sent_token,
  csrf_cookie, check_token, validate, csrf,
}

-- The request is one that the middleware checks: it changes state, and no exemption applies.
abbrev pub IsChecked : List Str → Request → Type 0
IsChecked public_paths r =
    ((is_public public_paths r || is_api r) ≡ false) × (is_read r ≡ false) × (is_write r ≡ true)

abbrev pub got : Request → Str
got r = trim_space (sent_token r)

csrf_checked :
    (public_paths : List Str) (tokens : Map Bool) (r : Request) (random : Str)
    → IsChecked public_paths r
    → csrf public_paths tokens r random ≡ validate tokens r (generate_csrf_token random)
unfolding csrf
csrf_checked public_paths tokens r random (a, b, c) = rw (a, b, c)

check_token-next :
    (tokens : Map Bool) (token expected new_token : Str) (c : Option Str)
    → (check_token tokens token expected new_token).1 ≡ next c
    → (is_issued (Map.lookup token tokens) ≡ true)
      × (token ≡ expected)
      × (c ≡ some new_token)
      × ((check_token tokens token expected new_token).0
          ≡ Map.insert new_token true (Map.delete token tokens))
unfolding check_token
check_token-next tokens token expected new_token c e = ground (arith, str_eq_iff token expected)

-- A checked request is handed on exactly when it has a cookie, its token equals the cookie up to
-- white space, and the token was issued and not used since.
pub checked_passes_iff :
    (public_paths : List Str) (tokens : Map Bool) (r : Request) (random : Str)
    → IsChecked public_paths r
    → ((csrf public_paths tokens r random).1 ≡ next (some (generate_csrf_token random))) ↔ (
        (is_empty (csrf_cookie r) ≡ false)
        × (got r ≡ trim_space (csrf_cookie r))
        × (is_issued (Map.lookup (got r) tokens) ≡ true))
unfolding validate check_token
checked_passes_iff public_paths tokens r random c =
    rw (csrf_checked public_paths tokens r random c)
      (ground (arith, str_eq_iff (got r) (trim_space (csrf_cookie r))))

-- The token drawn by the request is not `token`.
abbrev pub DrawsOther : Str → Request × Str → Type 0
DrawsOther token (r, random) = generate_csrf_token random ≢ token

pub run : List Str → Map Bool → List (Request × Str) → Map Bool
run public_paths tokens [] = tokens
run public_paths tokens ((r, random) ∷ rs) =
    run public_paths (csrf public_paths tokens r random).0 rs

check_token-none :
    (tokens : Map Bool) (token sent expected new_token : Str)
    → Map.lookup token tokens ≡ none
    → new_token ≢ token
    → Map.lookup token (check_token tokens sent expected new_token).0 ≡ none
unfolding check_token
check_token-none tokens token sent expected new_token absent other = ground (
  arith,
  str_eq_iff new_token token,
  lookup-delete sent token tokens,
  lookup-insert new_token token true (Map.delete sent tokens),
)

csrf-none :
    (public_paths : List Str) (tokens : Map Bool) (r : Request) (random token : Str)
    → Map.lookup token tokens ≡ none
    → generate_csrf_token random ≢ token
    → Map.lookup token (csrf public_paths tokens r random).0 ≡ none
unfolding csrf validate
csrf-none public_paths tokens r random token absent other = ground (
  arith,
  str_eq_iff (generate_csrf_token random) token,
  lookup-insert (generate_csrf_token random) token true tokens,
  check_token-none tokens token (got r) (trim_space (csrf_cookie r)) (generate_csrf_token random)
      absent other,
)

run-none :
    (public_paths : List Str) (tokens : Map Bool) (rs : List (Request × Str)) (token : Str)
    → Map.lookup token tokens ≡ none
    → All (DrawsOther token) rs
    → Map.lookup token (run public_paths tokens rs) ≡ none
unfolding run
run-none public_paths tokens [] token absent other = absent
run-none public_paths tokens ((r, random) ∷ rs) token absent (other, others) =
    run-none public_paths (csrf public_paths tokens r random).0 rs token
      (csrf-none public_paths tokens r random token absent other) others

-- A token lets one checked request through. Once it has, every later checked request that sends it
-- is refused, whatever requests come between, as long as the generator does not draw it again.
pub replay_refused :
    (public_paths : List Str) (tokens : Map Bool) (r later : Request) (random random' : Str)
    (between : List (Request × Str)) (c c' : Option Str)
    → IsChecked public_paths r
    → IsChecked public_paths later
    → got later ≡ got r
    → All (DrawsOther (got r)) ((r, random) ∷ between)
    → (csrf public_paths tokens r random).1 ≡ next c
    → (csrf public_paths (run public_paths tokens ((r, random) ∷ between)) later random').1
      ≢ next c'
unfolding run validate
replay_refused public_paths tokens r later random random' between c c' checked checked' same
      (other, others) passed passed' =
    absurd (ground (arith, gone, issued))
  where
    first : Map.lookup (got r) (csrf public_paths tokens r random).0 ≡ none
    first = rw (csrf_checked public_paths tokens r random checked) (
        ground (
          arith,
          rw (csrf_checked public_paths tokens r random checked) at passed,
          check_token-next tokens (got r) (trim_space (csrf_cookie r)) (generate_csrf_token random)
              c,
          str_eq_iff (generate_csrf_token random) (got r),
          lookup-insert (generate_csrf_token random) (got r) true (Map.delete (got r) tokens),
          lookup-delete_self (got r) tokens,
        ))

    gone :
        Map.lookup (got r) (run public_paths (csrf public_paths tokens r random).0 between) ≡ none
    gone = run-none public_paths _ between (got r) first others

    issued :
        is_issued
          (Map.lookup (got later) (run public_paths (csrf public_paths tokens r random).0 between))
        ≡ true
    issued = ground (
      arith,
      rw
          (csrf_checked public_paths
            (run public_paths (csrf public_paths tokens r random).0 between) later random' checked')
          at passed',
      check_token-next (run public_paths (csrf public_paths tokens r random).0 between) (got later)
          (trim_space (csrf_cookie later)) (generate_csrf_token random') c',
    )

csrf_read :
    (public_paths : List Str) (tokens : Map Bool) (page : Request) (random : Str)
    → (is_public public_paths page || is_api page) ≡ false
    → is_read page ≡ true
    → ((csrf public_paths tokens page random).1 ≡ next (some (generate_csrf_token random)))
      × (Map.lookup (generate_csrf_token random) (csrf public_paths tokens page random).0
          ≡ some true)
unfolding csrf
csrf_read public_paths tokens page random open_page reads =
    rw (open_page, reads) (refl, lookup-insert_self (generate_csrf_token random) true tokens)

generate-plain :
    (random : Str)
    → All IsByte random
    → trim_space (generate_csrf_token random) ≡ generate_csrf_token random
unfolding generate_csrf_token
generate-plain random h = trim_space_of_All (hex_encode random) (hex_encode-no_space random h)

generate-not_empty : (random : Str) → random ≢ [] → is_empty (generate_csrf_token random) ≡ false
unfolding generate_csrf_token hex_encode
generate-not_empty [] ne = absurd (ne refl)
generate-not_empty (b ∷ s) ne = refl

-- A page that was read lets the next form through: the token that a GET sets passes when it comes
-- back as the sent token and the cookie. The random bytes are bytes, and there is one at least.
pub read_then_write_passes :
    (public_paths : List Str) (tokens : Map Bool) (page form : Request) (random random' : Str)
    → All IsByte random
    → random ≢ []
    → (is_public public_paths page || is_api page) ≡ false
    → is_read page ≡ true
    → IsChecked public_paths form
    → sent_token form ≡ generate_csrf_token random
    → csrf_cookie form ≡ generate_csrf_token random
    → ((csrf public_paths tokens page random).1 ≡ next (some (generate_csrf_token random)))
      × ((csrf public_paths (csrf public_paths tokens page random).0 form random').1
          ≡ next (some (generate_csrf_token random')))
read_then_write_passes public_paths tokens page form random random' bs ne open_page reads checked
      sent echoed =
    (issued.0, (checked_passes_iff public_paths _ form random' checked).1 (filled, same, known))
  where
    issued :
        ((csrf public_paths tokens page random).1 ≡ next (some (generate_csrf_token random)))
        × (Map.lookup (generate_csrf_token random) (csrf public_paths tokens page random).0
            ≡ some true)
    issued = csrf_read public_paths tokens page random open_page reads

    filled : is_empty (csrf_cookie form) ≡ false
    filled = rw echoed (generate-not_empty random ne)

    same : got form ≡ trim_space (csrf_cookie form)
    same = ap trim_space (cc (sent, echoed))

    known : is_issued (Map.lookup (got form) (csrf public_paths tokens page random).0) ≡ true
    known =
        let e : got form ≡ generate_csrf_token random =
          ap trim_space sent ∙ generate-plain random bs in
        rw (e, issued.1)
