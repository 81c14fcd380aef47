-- ===== src/Http/Request/Create.antt =====
-- src/http/xps_http_req.c: `xps_http_req_create` and `xps_http_req_serialize`.
use nw_lab.Buffer.{Buffer, buffer_create}
use nw_lab.Http.Headers.{TextBuffer, get_header, serialize_headers}
use nw_lab.Http.Request.{CInt, HttpReq, fresh_req, process_request_line, process_headers, is_ok}
use nw_lab.Memory.{Alloc, memcpy}
use nw_lab.Prelude.{
  ℕ, ◌+◌, ◌-◌, ◌^◌, ◌%◌, Bool, true, false, ◌&&◌, Bytes, [], ◌∷◌, Option, none, some, Exec, done,
  fault, Mallocs, ◌>>=◌, length, codes,
}
use nw_lab.Status.{Code, ok, e_fail}
use nw_lab.Text.{strcmp_eq, atoi}

-- `*error`: a return code or a status of HTTP.
pub data Error : Type 0 where
  returned : Code → Error
  status : ℕ → Error

-- An `int` that is assigned to a `size_t` of 64 bits.
unfoldable pub size_of_int : CInt → ℕ
size_of_int (false, n) = n
size_of_int (true, n) = (2 ^ 64 - n) % 2 ^ 64

unfoldable pub body_len_of : Option Bytes → Exec ℕ
unfolding size_of_int
body_len_of none = done 0
body_len_of (some s) = atoi s >>= λ n. done (size_of_int n)

unfoldable pub is_version_1_1 : Option Bytes → Bool
is_version_1_1 none = false
is_version_1_1 (some v) = strcmp_eq v (codes "1.1")

abbrev is_null : Option Bytes → Bool
is_null none = true
is_null (some s) = false

-- "Host", and if that is missing "host".
unfoldable pub find_host : HttpReq → Exec (Option Bytes)
find_host req = get_header req.headers (codes "Host") >>= λ h. elim h [
  | some v ↦ done (some v)
  | none ↦ get_header req.headers (codes "host")
]

-- What `xps_http_req_create` leaves: `*error`, the request, and the buffer.
pub record Created : Type 0 where
  pub error : Error
  pub req : Option HttpReq
  pub buff : Buffer

abbrev pub bad_request : Buffer → Created
bad_request buff = record { error = status 400; req = none; buff = buff }

-- From the header length on.
unfoldable pub finish_req : HttpReq → Buffer → Exec Created
unfolding body_len_of is_version_1_1 find_host
finish_req req buff = do
  body_len_str ← get_header req.headers (codes "Content-Length")
  body_len ← body_len_of body_len_str
  host_header ← find_host req
  let whole = record req { header_len = buff.pos; body_len = body_len }
  elim (is_version_1_1 req.http_version && is_null host_header) [
    | true ↦ done (bad_request buff)
    | false ↦ done (record { error = returned ok; req = some whole; buff = buff })
  ]

unfoldable pub after_headers : Option (Code × HttpReq × Buffer) → Exec (Option Created)
unfolding finish_req
after_headers none = done none
after_headers (some (c, req, buff)) = elim (is_ok c) [
  | false ↦ done (some (bad_request buff))
  | true ↦ finish_req req buff >>= λ r. done (some r)
]

-- `none` if the fuel of the header loop runs out. `line` answers the allocations of the request
-- line, `round i` those of round `i` of the header loop.
unfoldable pub http_req_create :
    (given : Bool) (line : Mallocs) (round : ℕ → Mallocs) → Buffer → Exec (Option Created)
unfolding after_headers
http_req_create given line round buff = elim given [
  | false ↦ done (some (record { error = returned e_fail; req = none; buff = buff }))
  | true ↦ process_request_line line fresh_req buff >>= λ r. elim (is_ok r.0) [
    | false ↦ done (some (bad_request r.2))
    | true ↦ process_headers round r.1 r.2 >>= after_headers
  ]
]

-- The request line, LF, the headers, LF.
unfoldable pub put_request : Bytes → (line headers : Bytes) → Exec Bytes
put_request block line headers = do
  b1 ← memcpy block 0 line 0 (length line)
  b2 ← memcpy b1 (length line) (b'\n' ∷ []) 0 1
  b3 ← memcpy b2 (length line + 1) headers 0 (length headers)
  memcpy b3 (length line + 1 + length headers) (b'\n' ∷ []) 0 1

unfoldable pub put_request_into : Option Buffer → (line headers : Bytes) → Exec (Option Buffer)
unfolding put_request
put_request_into none line headers = fault
put_request_into (some buff) line headers = do
  block ← put_request buff.data_block line headers
  done (some (record buff { data_block = block }))

unfoldable pub serialize_req_with : Alloc → Option Bytes → Option TextBuffer → Exec (Option Buffer)
unfolding put_request_into
serialize_req_with a line none = fault
serialize_req_with a none (some headers) = fault
serialize_req_with a (some line) (some headers) = do
  let final_len = length line + 1 + length headers.text + 1
  buff ← buffer_create a (final_len + 1) final_len none
  put_request_into buff line headers.text

-- A missing string, header text or buffer is dereferenced.
unfoldable pub http_req_serialize :
    (struct block : Bool) → Mallocs → Alloc → HttpReq → Exec (Option Buffer)
unfolding serialize_req_with
http_req_serialize struct block given a req =
    serialize_headers struct block given req.headers >>= serialize_req_with a req.request_line
