-- ===== src/Middleware/RequestId/Laws.antt =====
-- When the log line of a request panics, and whose address it names.
use loxtu_go.Base.{
  ℕ, ◌+◌, ◌*◌, ◌^◌, ◌<◌, ◌≡◌, ◌≢◌, ◌↔◌, refl, false, none, some, [], ◌∷◌, ◌++◌, arith, Str, bytes,
  length, length-append, is_empty, All, if◌then◌else◌,
}
use loxtu_go.Base.Strings.{
  hex_encode, length-hex_encode, split_first-append, trim_space_of_All, is_space,
}
use loxtu_go.Middleware.Request.{Request, header}
use loxtu_go.Middleware.RequestId.{
  generate_id, answer, before_last, first_part, extract_client_ip, Inner, Logged, panics, is_static,
  log_request, request_id, request_id_middleware,
}
use loxtu_go.Middleware.RequestId.Hex.{itohex_lem}

generate_id-length :
    (now : ℕ) (random : Str)
    → now < 16 ^ 16
    → (id : Str) × (generate_id now random ≡ some id) × (length id ≡ 8 + 2 * length random)
unfolding generate_id
generate_id-length now random h =
    let (ts, e, l, _) = itohex_lem now 8 h in
    rw (e, generate_id)
      (
        ts ++ hex_encode random,
        refl,
        omega (arith, length-append ts (hex_encode random), length-hex_encode random),
      )

log_request-panics_iff :
    (r : Request) (id : Str) (inner : Inner)
    → (log_request r id inner ≡ panics) ↔ ((is_static r.path ≡ false) × (length id < 8))
unfolding log_request
log_request-panics_iff r id inner = ground arith

-- At a time of 64 bits the middleware answers with an identifier: the client's, or else one of
-- eight digits and two for each random byte. The log line panics exactly when the client sent an
-- identifier shorter than eight bytes for a path that is logged.
pub request_id_logs :
    (r : Request) (now : ℕ) (random : Str) (inner : Inner)
    → now < 16 ^ 16
    → (id : Str) × (l : Logged) × (request_id_middleware r now random inner ≡ some (id, l))
      × (header r (bytes "X-Request-ID") ≢ [] → id ≡ header r (bytes "X-Request-ID"))
      × (header r (bytes "X-Request-ID") ≡ [] → length id ≡ 8 + 2 * length random)
      × ((l ≡ panics) ↔ (
          (is_static r.path ≡ false)
          × (header r (bytes "X-Request-ID") ≢ [])
          × (length (header r (bytes "X-Request-ID")) < 8)))
unfolding request_id_middleware request_id
request_id_logs r now random inner h =
    go (header r (bytes "X-Request-ID")) (generate_id-length now random h)
  where
    go :
        (given : Str)
        → ((id : Str) × (generate_id now random ≡ some id) × (length id ≡ 8 + 2 * length random))
        → (id : Str) × (l : Logged) × (answer r inner
              (if is_empty given then generate_id now random else some given)
            ≡ some (id, l))
          × (given ≢ [] → id ≡ given)
          × (given ≡ [] → length id ≡ 8 + 2 * length random)
          × ((l ≡ panics) ↔ ((is_static r.path ≡ false) × (given ≢ []) × (length given < 8)))
    go [] (id, e, n) = (
      id,
      log_request r id inner,
      rw (e, answer),
      (λ ne. absurd (ne refl)),
      (λ _. n),
      (
        (λ p. absurd (omega (arith, n, ((log_request-panics_iff r id inner).0 p).1))),
        (λ q. absurd (q.1 refl)),
      ),
    )
    go (c ∷ cs) _ = (
      c ∷ cs,
      log_request r (c ∷ cs) inner,
      refl,
      (λ _. refl),
      (λ e. cc),
      (
        (λ p. let q = (log_request-panics_iff r (c ∷ cs) inner).0 p in (q.0, (λ e. cc), q.1)),
        (λ q. (log_request-panics_iff r (c ∷ cs) inner).1 (q.0, q.2)),
      ),
    )

before_last-none : (sep : ℕ) (s : Str) → All (λ c. c ≢ sep) s → before_last sep s ≡ none
unfolding before_last
before_last-none sep [] h = refl
before_last-none sep (c ∷ s) (ne, h) = rw (before_last-none sep s h) (ground arith)

before_last-append :
    (sep : ℕ) (a b : Str) → All (λ c. c ≢ sep) b → before_last sep (a ++ sep ∷ b) ≡ some a
unfolding before_last
before_last-append sep [] b h = rw (before_last-none sep b h) (ground arith)
before_last-append sep (c ∷ a) b h = rw (before_last-append sep a b h)

first_part-append : (sep : ℕ) (a b : Str) → All (λ c. c ≢ sep) a → first_part sep (a ++ sep ∷ b) ≡ a
first_part-append sep a b h = rw (split_first-append sep a b h, first_part)

-- Behind a proxy the address is the first entry of X-Forwarded-For, if it holds no white space;
-- without a proxy's header it is the peer's address without its port.
pub extract_client_ip_lem :
    (r : Request) (client rest ip port : Str)
    → All (λ c. c ≢ b',') client
    → All (λ c. is_space c ≡ false) client
    → All (λ c. c ≢ b':') port
    → (header r (bytes "X-Forwarded-For") ≡ client ++ b',' ∷ rest → extract_client_ip r ≡ client)
      × (header r (bytes "X-Forwarded-For") ≡ []
          → header r (bytes "X-Real-IP") ≡ []
          → r.remote_addr ≡ ip ++ b':' ∷ port
          → extract_client_ip r ≡ ip)
unfolding extract_client_ip
extract_client_ip_lem r client rest ip port no_comma plain no_colon = (
  (λ e.
      rw (e, nonempty client, first_part-append b',' client rest no_comma)
        (trim_space_of_All client plain)),
  (λ e f g. rw (e, f, g, before_last-append b':' ip port no_colon)),
)
  where
    nonempty : (s : Str) → is_empty (s ++ b',' ∷ rest) ≡ false
    nonempty [] = refl
    nonempty (c ∷ s) = refl
