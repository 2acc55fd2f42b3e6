-- ===== src/Identity/Session/Codec.antt =====
-- A JWT library for the examples: a token is a tag, the key and the claims, each text after its
-- length. It is no model of the real one.
use loxtu_go.Base.{
  ℕ, zero, suc, ◌*◌, ◌≤◌, ◌<◌, Bool, true, false, List, [], ◌∷◌, Str, bytes, ◌≡◌, refl, sym, ◌∙◌,
  ◌++◌, leb, length, take, drop, str_eq, str_eq_refl, take-append, drop-append, if◌then◌else◌,
  arith,
}
use loxtu_go.Base.Clock.{second}
use loxtu_go.Base.Result.{Result, ok, err, ◌>>=◌}
use loxtu_go.Identity.Session.{Jwt, IsJwt, AccessClaims}

pub put : Str → Str → Str
put s rest = length s ∷ (s ++ rest)

pub get : Str → Str × Str
get [] = ([], [])
get (n ∷ xs) = (take n xs, drop n xs)

get-put : (s rest : Str) → get (put s rest) ≡ (s, rest)
unfolding get put
get-put s rest = rw (take-append s rest, drop-append s rest)

put_all : List Str → Str
put_all [] = []
put_all (p ∷ ps) = put p (put_all ps)

get_all : ℕ → Str → List Str
get_all zero s = []
get_all (suc n) s = (get s).0 ∷ get_all n (get s).1

get_all-put_all : (ps : List Str) → get_all (length ps) (put_all ps) ≡ ps
unfolding get_all put_all
get_all-put_all [] = refl
get_all-put_all (p ∷ ps) = rw (get-put p (put_all ps), get_all-put_all ps)

pub encode : AccessClaims → Str
encode c =
    c.issued_at
    ∷ c.expires_at
    ∷ put c.issuer (
        put c.subject (
          put c.user_id_hash
            (put c.tenant_id (put c.role (length c.permissions ∷ put_all c.permissions)))))

count_of : Str → ℕ
count_of [] = 0
count_of (n ∷ s) = n

tail : Str → Str
tail [] = []
tail (n ∷ s) = s

permissions_of : Str → List Str
permissions_of s = get_all (count_of s) (tail s)

dated : ℕ → ℕ → Str → AccessClaims
dated issued_at expires_at s =
    let a = get s in
    let b = get a.1 in
    let c = get b.1 in
    let d = get c.1 in
    let e = get d.1 in
    record {
      issuer = a.0;
      subject = b.0;
      issued_at = issued_at;
      expires_at = expires_at;
      user_id_hash = c.0;
      tenant_id = d.0;
      role = e.0;
      permissions = permissions_of e.1;
    }

pub decode : Str → AccessClaims
decode s = dated (count_of s) (count_of (tail s)) (tail (tail s))

decode-encode : (c : AccessClaims) → decode (encode c) ≡ c
unfolding decode encode dated count_of tail permissions_of
decode-encode c =
    let r5 = length c.permissions ∷ put_all c.permissions in
    let r4 = put c.role r5 in
    let r3 = put c.tenant_id r4 in
    let r2 = put c.user_id_hash r3 in
    let r1 = put c.subject r2 in
    rw (
      get-put c.issuer r1,
      get-put c.subject r2,
      get-put c.user_id_hash r3,
      get-put c.tenant_id r4,
      get-put c.role r5,
      get_all-put_all c.permissions,
    )

-- The key that a token was signed with must be the key given, and its claims must be in time.
abbrev pub checked : Bool → ℕ → AccessClaims → Result (AccessClaims × Bool)
checked false now c = err (bytes "signature is invalid")
checked true now c =
    if leb (c.expires_at * second) now then err (bytes "token is expired") else ok (c, true)

abbrev pub toy_parse : (Bool → Str → Result Str) → ℕ → Str → Result (AccessClaims × Bool)
toy_parse f now (suc n ∷ s) =
    f true (bytes "HS256") >>= λ key. checked (str_eq (get s).0 key) now (decode (get s).1)
toy_parse f now s = f false (bytes "none") >>= λ key. err (bytes "malformed")

abbrev pub toy_jwt : Jwt
toy_jwt = record { sign = λ key c. ok (1 ∷ put key (encode c)); parse = toy_parse }

abbrev pub toy_expired : Result (AccessClaims × Bool)
toy_expired = err (bytes "token is expired")

toy_found :
    (key : Str) (f : Bool → Str → Result Str) (c : AccessClaims) (now : ℕ)
    → f true (bytes "HS256") ≡ ok key
    → toy_parse f now (1 ∷ put key (encode c)) ≡ checked true now c
toy_found key f c now h = rw (h, get-put key (encode c), decode-encode c, str_eq_refl key)

checked_early :
    (now : ℕ) (c : AccessClaims) → now < c.expires_at * second → checked true now c ≡ ok (c, true)
checked_early now c h = ground arith

checked_late :
    (now : ℕ) (c : AccessClaims) → c.expires_at * second ≤ now → checked true now c ≡ toy_expired
checked_late now c h = ground arith

ok-injective : {A : Type 0} {a b : A} → ok a ≡ ok b → a ≡ b
ok-injective e = cc

-- A signed token parses as its claims do at that moment.
toy_signed :
    (key : Str) (f : Bool → Str → Result Str) (c : AccessClaims) (raw : Str) (now : ℕ)
    → ok (1 ∷ put key (encode c)) ≡ ok raw
    → f true (bytes "HS256") ≡ ok key
    → toy_parse f now raw ≡ checked true now c
toy_signed key f c raw now signed h = rw (sym (ok-injective signed)) (toy_found key f c now h)

pub toy_jwt-IsJwt : IsJwt toy_jwt
toy_jwt-IsJwt = record {
  sign_total = λ key c. (1 ∷ put key (encode c), refl);
  parse-sign = λ key f c raw now signed h early.
      toy_signed key f c raw now signed h ∙ checked_early now c early;
  parse_expired = λ key f c raw now signed h late.
      (bytes "token is expired", toy_signed key f c raw now signed h ∙ checked_late now c late);
}
