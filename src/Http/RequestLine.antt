-- ===== src/Http/RequestLine.antt =====
-- src/http/xps_http.c: `http_strcmp` and `xps_http_parse_request_line`.
pub mod Accepts
pub mod Spans
use nw_lab.Http.Scan.{Step, refuse, go, stop, broken, within, lower, scan, Parse, parse_with}
use nw_lab.Http.State.{
  Method, get, head, post, put, delete, options, trace, connect, ParserState, Marks, rl_start,
  rl_method, rl_sp_after_method, rl_schema, rl_schema_slash, rl_schema_slash_slash, rl_host,
  rl_port, rl_path, rl_pathname, rl_version_start, rl_version_h, rl_version_ht, rl_version_htt,
  rl_version_http, rl_version_http_slash, rl_version_major, rl_version_dot, rl_version_minor, rl_cr,
  rl_lf,
}
use nw_lab.Prelude.{
  ℕ, zero, suc, ◌+◌, ◌-◌, Bool, true, false, not, ◌&&◌, ◌||◌, ◌∷◌, Bytes, Option, none, some, Exec,
  ltb, ◌==◌, if◌then◌else◌, drop, codes,
}
use nw_lab.Status.{ok}

-- The first `length` characters, up to bit 0x20 of each.
pub http_strcmp : (str method : Bytes) (length : ℕ) → Bool
http_strcmp str method zero = true
http_strcmp (s ∷ str) (c ∷ method) (suc n) = lower s == lower c && http_strcmp str method n
http_strcmp _ _ (suc n) = false

-- The ladder of `RL_METHOD`.
unfoldable pub method_of : (str : Bytes) (method_len : ℕ) → Option Method
unfolding http_strcmp
method_of str n =
    if n == 3 && http_strcmp str (codes "GET") 3
    then some get
    else if n == 3 && http_strcmp str (codes "PUT") 3
    then some put
    else if n == 4 && http_strcmp str (codes "HEAD") 4
    then some head
    else if n == 4 && http_strcmp str (codes "POST") 4
    then some post
    else if n == 6 && http_strcmp str (codes "DELETE") 6
    then some delete
    else if n == 7 && http_strcmp str (codes "CONNECT") 7
    then some connect
    else if n == 7 && http_strcmp str (codes "OPTIONS") 7
    then some options
    else if n == 5 && http_strcmp str (codes "TRACE") 5
    then some trace
    else none

set_method : Option Method → ℕ → Marks → Step Marks
set_method none p m = refuse
set_method (some method) p m =
    go rl_sp_after_method (record m { method_n = method; method_end = some p })

method_end_step : Bytes → Option ℕ → ℕ → Marks → Step Marks
method_end_step block none p m = broken
method_end_step block (some start) p m = set_method (method_of (drop start block) (p - start)) p m

-- `RL_START` and `RL_METHOD`.
start_step : (p ch : ℕ) → Marks → Step Marks
start_step p ch m =
    if ch == b'\r' || ch == b'\n'
    then go rl_start m
    else if ltb ch b'A' || ltb b'Z' ch
    then refuse
    else go rl_method (record m { request_line_start = some p; method_start = some p })

method_step : Bytes → (p ch : ℕ) → Marks → Step Marks
unfolding method_end_step set_method
method_step block p ch m =
    if ch == b' ' then method_end_step block m.method_start p m else go rl_method m

-- `RL_SP_AFTER_METHOD`, `RL_SCHEMA`, and the two slashes behind the schema.
target_step : (p ch : ℕ) → Marks → Step Marks
target_step p ch m =
    if ch == b'/'
    then go rl_path (record m {
      schema_start = none;
      schema_end = none;
      host_start = none;
      host_end = none;
      port_start = none;
      port_end = none;
      uri_start = some p;
      path_start = some p;
      pathname_start = some p;
    })
    else if ltb (lower ch) b'a' || ltb b'z' (lower ch)
    then refuse
    else go rl_schema (record m { schema_start = some p; uri_start = some p })

schema_step : (p ch : ℕ) → Marks → Step Marks
schema_step p ch m =
    if ch == b':'
    then go rl_schema_slash (record m { schema_end = some p })
    else if ltb (lower ch) b'a' || ltb b'z' (lower ch)
    then refuse
    else go rl_schema m

-- Neither slash state fails: any other character is passed over.
schema_slash_step : (ch : ℕ) → Marks → Step Marks
schema_slash_step ch m = if ch == b'/' then go rl_schema_slash_slash m else go rl_schema_slash m

schema_slash_slash_step : (p ch : ℕ) → Marks → Step Marks
schema_slash_slash_step p ch m =
    if ch == b'/'
    then go rl_host (record m { host_start = some (p + 1) })
    else go rl_schema_slash_slash m

is_host_char : ℕ → Bool
is_host_char c = within b'a' b'z' c || within b'0' b'9' c || c == b'-' || c == b'.'

-- `RL_HOST`.
host_step : (p ch : ℕ) → Marks → Step Marks
unfolding is_host_char
host_step p ch m =
    if ch == b':'
    then go rl_port (record m { host_end = some p; port_start = some (p + 1) })
    else if ch == b'/'
    then go rl_path (record m {
      host_end = some p;
      port_end = some p;
      path_start = some p;
      pathname_start = some p;
    })
    else if ch == b' '
    then go rl_version_start (record m {
      host_end = some p;
      port_end = some p;
      path_start = some p;
      pathname_start = some p;
      uri_end = some p;
    })
    else if not (is_host_char (lower ch))
    then refuse
    else go rl_host m

-- `RL_PORT`.
port_step : (p ch : ℕ) → Marks → Step Marks
port_step p ch m =
    if ch == b'/'
    then go rl_path
        (record m { port_end = some p; path_start = some (p + 1); pathname_start = some (p + 1) })
    else if ch == b' '
    then go rl_version_start (record m {
      port_end = some p;
      path_start = some p;
      pathname_start = some p;
      uri_end = some p;
      path_end = some p;
      pathname_end = some p;
    })
    else if ltb ch b'0' || ltb b'9' ch
    then refuse
    else go rl_port m

abbrev end_target : ℕ → Marks → Step Marks
end_target p m =
    go rl_version_start (record m { path_end = some p; pathname_end = some p; uri_end = some p })

-- `RL_PATH` and `RL_PATHNAME`.
path_step : (p ch : ℕ) → Marks → Step Marks
path_step p ch m =
    if ch == b' '
    then end_target p m
    else if ch == b'?' || ch == b'&' || ch == b'=' || ch == b'#'
    then go rl_pathname (record m { pathname_end = some p })
    else if ch == b'\r' || ch == b'\n'
    then refuse
    else go rl_path m

pathname_step : (p ch : ℕ) → Marks → Step Marks
pathname_step p ch m =
    if ch == b' '
    then end_target p m
    else if ch == b'\r' || ch == b'\n'
    then refuse
    else go rl_pathname m

-- One character of the version that must be `want`.
abbrev expect : (want : ℕ) → ParserState → (ch : ℕ) → Marks → Step Marks
expect want st ch m = if ch == want then go st m else refuse

-- From `RL_VERSION_START` to `RL_LF`.
version_step : ParserState → (p ch : ℕ) → Marks → Step Marks
version_step rl_version_start p ch m =
    if ch == b'H'
    then go rl_version_h m
    else if not (ch == b' ')
    then refuse
    else go rl_version_start m
version_step rl_version_h p ch m = expect b'T' rl_version_ht ch m
version_step rl_version_ht p ch m = expect b'T' rl_version_htt ch m
version_step rl_version_htt p ch m = expect b'P' rl_version_http ch m
version_step rl_version_http p ch m = expect b'/' rl_version_http_slash ch m
version_step rl_version_http_slash p ch m =
    if ch == b'1' then go rl_version_major (record m { http_major = some p }) else refuse
version_step rl_version_major p ch m = expect b'.' rl_version_dot ch m
version_step rl_version_dot p ch m =
    if ch == b'0' || ch == b'1'
    then go rl_version_minor (record m { http_minor = some p })
    else refuse
version_step rl_version_minor p ch m =
    if ch == b'\r' then go rl_cr m else if ch == b'\n' then go rl_lf m else refuse
version_step rl_cr p ch m = expect b'\n' rl_lf ch m
version_step rl_lf p ch m =
    stop ok (elim m.request_line_end [ none ↦ record m { request_line_end = some p } | some _ ↦ m ])
version_step _ p ch m = refuse

-- The whole `switch`. The states that it does not name are its `default`.
unfoldable pub request_step : Bytes → ParserState → (p ch : ℕ) → Marks → Step Marks
unfolding start_step method_step target_step schema_step schema_slash_step schema_slash_slash_step
    host_step port_step path_step pathname_step version_step
request_step block rl_start p ch m = start_step p ch m
request_step block rl_method p ch m = method_step block p ch m
request_step block rl_sp_after_method p ch m = target_step p ch m
request_step block rl_schema p ch m = schema_step p ch m
request_step block rl_schema_slash p ch m = schema_slash_step ch m
request_step block rl_schema_slash_slash p ch m = schema_slash_slash_step p ch m
request_step block rl_host p ch m = host_step p ch m
request_step block rl_port p ch m = port_step p ch m
request_step block rl_path p ch m = path_step p ch m
request_step block rl_pathname p ch m = pathname_step p ch m
request_step block st p ch m = version_step st p ch m

-- `xps_http_parse_request_line`, on the block, the length and the position of a buffer.
unfoldable pub parse_request_line : Bytes → (len pos : ℕ) → ParserState → Marks → Exec (Parse Marks)
unfolding request_step scan
parse_request_line block len pos st m = parse_with (request_step block) len pos block st m
