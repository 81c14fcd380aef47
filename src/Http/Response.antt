-- ===== src/Http/Response.antt =====
-- src/http/xps_http_res.c: a response is created, given a body, and written into a buffer.
pub mod Serialize
use nw_lab.Buffer.{Buffer, buffer_create}
use nw_lab.Http.Headers.{KeyVal, TextBuffer, status_text, serialize_headers}
use nw_lab.Memory.{Alloc, memcpy}
use nw_lab.Prelude.{
  ℕ, zero, suc, ◌+◌, ◌/◌, ◌%◌, Bool, true, false, Bytes, List, [], ◌∷◌, ◌++◌, Option, none, some,
  Exec, done, Mallocs, ◌>>=◌, ltb, if◌then◌else◌, length, take, codes,
}

-- `xps_http_res_s`. `response_line` is the string in the array of 70 bytes.
pub record HttpRes : Type 0 where
  pub response_line : Bytes
  pub headers : List KeyVal
  pub body : Option Buffer

-- The digits of a number below ten to the `fuel`, in front of `acc`: `%u`.
unfoldable pub digits : (fuel n : ℕ) → Bytes → Bytes
digits zero n acc = acc
digits (suc fuel) n acc =
    let more = digits fuel (n / 10) ((b'0' + n % 10) ∷ acc) in
    if ltb n 10 then (b'0' + n) ∷ acc else more

-- `u_int` has 32 bits, so ten digits are enough.
unfoldable pub decimal : ℕ → Bytes
unfolding digits
decimal n = digits 10 n []

-- `snprintf` keeps 69 bytes and the NUL.
unfoldable pub response_line_of : (code : ℕ) → Bytes
response_line_of code =
    take 69 (codes "HTTP/1.1 " ++ (decimal code ++ (b' ' ∷ (status_text code ++ codes "\r\n"))))

unfoldable pub http_res_create : (given : Bool) → (code : ℕ) → Option HttpRes
http_res_create given code =
    if given
    then some (record { response_line = response_line_of code; headers = []; body = none })
    else none

unfoldable pub http_res_set_body : HttpRes → Buffer → HttpRes
http_res_set_body res buff = record res { body = some buff }

-- A character written through `buff->pos`.
abbrev pub put_char : Bytes → (at ch : ℕ) → Exec Bytes
put_char block at ch = memcpy block at (ch ∷ []) 0 1

abbrev body_len_of : Option Buffer → ℕ
body_len_of none = 0
body_len_of (some body) = body.len

put_body : Bytes → ℕ → Option Buffer → Exec Bytes
put_body block at none = done block
put_body block at (some body) = elim (ltb 0 body.len) [
  | true ↦ memcpy block at body.data_block 0 body.len
  | false ↦ done block
]

-- Response line, headers, an empty line, body.
put_response : Bytes → HttpRes → Bytes → Exec Bytes
unfolding put_body
put_response block res headers = do
  let line = res.response_line
  let at = length line + length headers
  b1 ← memcpy block 0 line 0 (length line)
  b2 ← memcpy b1 (length line) headers 0 (length headers)
  b3 ← put_char b2 at b'\r'
  b4 ← put_char b3 (at + 1) b'\n'
  put_body b4 (at + 2) res.body

put_into : Option Buffer → HttpRes → Bytes → Exec (Option Buffer)
unfolding put_response
put_into none res headers = done none
put_into (some buff) res headers = do
  block ← put_response buff.data_block res headers
  done (some (record buff { data_block = block }))

serialize_with : Alloc → HttpRes → Option TextBuffer → Exec (Option Buffer)
unfolding put_into
serialize_with a res none = done none
serialize_with a res (some headers) = do
  let final_len = length res.response_line + length headers.text + 2 + body_len_of res.body
  buff ← buffer_create a final_len final_len none
  put_into buff res headers.text

-- `struct`, `block` and `given` answer the allocations of the headers, `a` those of the buffer.
unfoldable pub http_res_serialize :
    (struct block : Bool) → Mallocs → Alloc → HttpRes → Exec (Option Buffer)
unfolding serialize_with
http_res_serialize struct block given a res =
    serialize_headers struct block given res.headers >>= serialize_with a res
