-- ===== src/Http/Request.antt =====
-- src/http/xps_http_req.c: a request is parsed out of a buffer and written back.
pub mod Ends
pub mod Headers
pub mod Lines
pub mod Create
pub mod Forward
pub mod Whole
use nw_lab.Buffer.{Buffer}
use nw_lab.Http.HeaderLine.{parse_header_line}
use nw_lab.Http.Headers.{KeyVal}
use nw_lab.Http.RequestLine.{parse_request_line}
use nw_lab.Http.State.{ParserState, Marks, HeaderMarks, rl_start, no_marks, no_header_marks}
use nw_lab.Prelude.{
  ℕ, zero, suc, ◌+◌, Bool, true, false, Bytes, List, [], Option, none, some, Exec, done, fault,
  Mallocs, ◌>>=◌, if◌then◌else◌, length, codes,
}
use nw_lab.Status.{Code, ok, e_fail, e_again, e_next}
use nw_lab.Text.{strcmp_eq, atoi}
use nw_lab.Utils.{str_from_ptrs}
use nw_lab.Vec.{vec_push}

-- An `int` as its sign (`true` for minus) and its absolute value.
abbrev pub CInt : Type 0
CInt = Bool × ℕ

-- `xps_http_req_t`. `parser_state` and the marks are the parsers'.
pub record HttpReq : Type 0 where
  pub parser_state : ParserState
  pub marks : Marks
  pub header_marks : HeaderMarks
  pub request_line : Option Bytes
  pub method : Option Bytes
  pub uri : Option Bytes
  pub schema : Option Bytes
  pub host : Option Bytes
  pub port : CInt
  pub path : Option Bytes
  pub pathname : Option Bytes
  pub http_version : Option Bytes
  pub headers : List KeyVal
  pub header_len : ℕ
  pub body_len : ℕ

-- After `memset(http_req, 0, ...)`, with the parser at its start.
abbrev pub fresh_req : HttpReq
fresh_req = record {
  parser_state = rl_start;
  marks = no_marks;
  header_marks = no_header_marks;
  request_line = none;
  method = none;
  uri = none;
  schema = none;
  host = none;
  port = (false, 0);
  path = none;
  pathname = none;
  http_version = none;
  headers = [];
  header_len = 0;
  body_len = 0;
}

-- A string that is cut out only where both pointers are set; else the field stays.
abbrev cut_if_set :
    (given : Bool) → Bytes → (start end : Option ℕ) → (old : Option Bytes) → Exec (Option Bytes)
cut_if_set given block none end old = done old
cut_if_set given block (some start) none old = done old
cut_if_set given block (some start) (some end) old =
    str_from_ptrs given block (some start) (some end)

-- `http_minor + 1`.
abbrev next_ptr : Option ℕ → Option ℕ
next_ptr none = none
next_ptr (some p) = some (p + 1)

-- `atoi` of the port's digits; of NULL where `malloc` failed.
abbrev port_number : Option Bytes → Exec CInt
port_number none = fault
port_number (some s) = atoi s

default_port : Option Bytes → CInt
default_port none = (false, 80)
default_port (some s) = if strcmp_eq s (codes "https") then (false, 443) else (false, 80)

port_of : (given : Bool) → Bytes → (start end : Option ℕ) → (schema : Option Bytes) → Exec CInt
port_of given block none end schema = done (default_port schema)
port_of given block (some start) none schema = done (default_port schema)
port_of given block (some start) (some end) schema =
    str_from_ptrs given block (some start) (some end) >>= port_number

-- The strings of the request line, once the parser has accepted it. `given` answers the
-- allocations in the order of the source.
unfoldable pub cut_request_line : Mallocs → Bytes → HttpReq → Exec HttpReq
unfolding default_port port_of
cut_request_line given block req = do
  let m = req.marks
  request_line ← str_from_ptrs (given 0) block m.request_line_start m.request_line_end
  method ← str_from_ptrs (given 1) block m.method_start m.method_end
  uri ← str_from_ptrs (given 2) block m.uri_start m.uri_end
  schema ← cut_if_set (given 3) block m.schema_start m.schema_end req.schema
  host ← cut_if_set (given 4) block m.host_start m.host_end req.host
  port ← port_of (given 5) block m.port_start m.port_end schema
  path ← cut_if_set (given 6) block m.path_start m.path_end req.path
  pathname ← cut_if_set (given 7) block m.pathname_start m.pathname_end req.pathname
  version ← str_from_ptrs (given 8) block m.http_major (next_ptr m.http_minor)
  done (record req {
    request_line = request_line;
    method = method;
    uri = uri;
    schema = schema;
    host = host;
    port = port;
    path = path;
    pathname = pathname;
    http_version = version;
  })

abbrev pub is_ok : Code → Bool
is_ok ok = true
is_ok _ = false

-- `http_process_request_line`: the code, the request and the buffer's new position.
unfoldable pub process_request_line : Mallocs → HttpReq → Buffer → Exec (Code × HttpReq × Buffer)
process_request_line given req buff = do
  r ← parse_request_line buff.data_block buff.len buff.pos req.parser_state req.marks
  let parsed = record req { parser_state = r.state; marks = r.marks }
  let buff' = record buff { pos = r.pos }
  elim (is_ok r.code) [
    | false ↦ done (r.code, parsed, buff')
    | true ↦ cut_request_line given buff.data_block parsed >>= λ req'. done (ok, req', buff')
  ]

-- One header cut out of the block and pushed. Where the allocation of the header fails, the whole
-- list is freed.
unfoldable pub push_header : (given : Mallocs) → Bytes → HttpReq → Exec (Bool × HttpReq)
push_header given block req = elim (given 0) [
  | false ↦ done (false, record req { headers = [] })
  | true ↦ do
    let m = req.header_marks
    key ← str_from_ptrs (given 1) block m.header_key_start m.header_key_end
    val ← str_from_ptrs (given 2) block m.header_val_start m.header_val_end
    done (
      true,
      record req { headers = vec_push (given 3) req.headers (record { key = key; val = val }) },
    )
]

-- What the loop of `http_process_headers` does with a parsed line: leave with a code, or go on.
pub data Next : Type 0 where
  leave : Code → Next
  repeat : Next

unfoldable pub after_line : (given : Mallocs) → Bytes → Code → HttpReq → Exec (Next × HttpReq)
unfolding push_header
after_line given block e_fail req = done (leave e_fail, req)
after_line given block e_again req = done (leave ok, req)
after_line given block ok req = push_header given block req >>= λ r.
    done (elim r.0 [ true ↦ leave ok | false ↦ leave e_fail ], r.1)
after_line given block e_next req = push_header given block req >>= λ r.
    done (elim r.0 [ true ↦ repeat | false ↦ leave e_fail ], r.1)
after_line given block _ req = done (leave ok, req)

-- One round: parse a line, then deal with it.
unfoldable pub headers_round : (given : Mallocs) → HttpReq → Buffer → Exec (Next × HttpReq × Buffer)
unfolding after_line
headers_round given req buff = do
  r ← parse_header_line buff.data_block buff.len buff.pos req.parser_state req.header_marks
  n ←
      after_line given buff.data_block r.code
        (record req { parser_state = r.state; header_marks = r.marks })
  done (n.0, n.1, record buff { pos = r.pos })

-- The `while (1)` on fuel; `none` if that runs out. `given i` answers round `i`.
unfoldable pub headers_loop :
    (given : ℕ → Mallocs)
    → (fuel i : ℕ) → HttpReq
    → Buffer
    → Exec (Option (Code × HttpReq × Buffer))
headers_loop given zero i req buff = done none
headers_loop given (suc fuel) i req buff = headers_round (given i) req buff >>= λ r. elim r.0 [
  | leave c ↦ done (some (c, r.1, r.2))
  | repeat ↦ headers_loop given fuel (i + 1) r.1 r.2
]

-- `http_process_headers`. Each round moves on in the block, so its length is fuel enough.
unfoldable pub process_headers :
    (given : ℕ → Mallocs) → HttpReq → Buffer → Exec (Option (Code × HttpReq × Buffer))
process_headers given req buff =
    headers_loop given (length buff.data_block + 1) 0 (record req { headers = [] }) buff
