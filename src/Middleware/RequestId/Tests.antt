-- ===== src/Middleware/RequestId/Tests.antt =====
-- Runs of the request identifier and the client's address, and the theorems at concrete inputs.
use loxtu_go.Base.{
  ◌+◌, ◌*◌, ◌<◌, ◌≡◌, ◌≢◌, ◌↔◌, refl, true, false, some, [], ◌∷◌, arith, Str, bytes, length,
  has_prefix, str_eq,
}
use loxtu_go.Base.Map
use loxtu_go.Base.Map.{Map}
use loxtu_go.Base.Strings.{hex_encode, split_first, trim_space}
use loxtu_go.Middleware.Request.{Request, header}
use loxtu_go.Middleware.RequestId.{
  pad, itohex, itohex_loop, generate_id, before_last, extract_client_ip, Inner, Logged, panics,
  is_static, log_request, request_id, request_id_middleware,
}
use loxtu_go.Middleware.RequestId.Laws.{request_id_logs}

identifiers : Unit {0}
unfolding pad itohex itohex_loop generate_id before_last extract_client_ip log_request request_id
    request_id_middleware header hex_encode split_first trim_space Map.lookup bytes str_eq
    has_prefix
identifiers = tt

abbrev ask : Map Str → Request
ask headers = record {
  method = bytes "GET";
  path = bytes "/dashboard";
  remote_addr = bytes "10.0.0.7:5123";
  is_tls = true;
  headers = headers;
  query = [];
  form = [];
  cookies = [];
}

abbrev direct : Request
direct = ask []

abbrev inner : Inner
inner = record { status = 200; email = []; tenant_id = [] }

abbrev short_id : Request
short_id = ask ((bytes "X-Request-ID", bytes "abc") ∷ [])

-- A proxy's identifier of three bytes brings the log line down.
short_id_panics : request_id_middleware short_id 1 [] inner ≡ some (bytes "abc", panics)
unfolding identifiers
short_id_panics = refl

-- A time of eleven digits keeps the first eight.
prefix_of_time : itohex 0x18f_0000_0abc 8 ≡ some (bytes "18f00000")
unfolding identifiers
prefix_of_time = refl

request_id_logs_example :
    (id : Str) × (l : Logged) × (request_id_middleware short_id 1 (9 ∷ []) inner ≡ some (id, l))
    × (header short_id (bytes "X-Request-ID") ≢ [] → id ≡ header short_id (bytes "X-Request-ID"))
    × (header short_id (bytes "X-Request-ID") ≡ [] → length id ≡ 8 + 2 * 1)
    × ((l ≡ panics) ↔ (
        (is_static short_id.path ≡ false)
        × (header short_id (bytes "X-Request-ID") ≢ [])
        × (length (header short_id (bytes "X-Request-ID")) < 8)))
request_id_logs_example = request_id_logs short_id 1 (9 ∷ []) inner (omega arith)
