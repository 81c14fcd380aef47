-- ===== src/Http/Headers.antt =====
-- src/http/xps_http.c: the header list, `xps_http_get_header`, `xps_http_set_header`,
-- `xps_http_serialize_headers`, and `xps_http_status_text`.
pub mod Serialize
use nw_lab.Prelude.{
  ℕ, ◌+◌, ◌-◌, ◌*◌, Bool, true, false, ◌&&◌, Bytes, List, [], ◌∷◌, ◌++◌, Option, none, some, Exec,
  done, fault, Mallocs, ◌>>=◌, ◌>>◌, access, ltb, leb, ◌==◌, if◌then◌else◌, length, codes,
}
use nw_lab.Status.{Code, ok, e_fail}
use nw_lab.Text.{strcasecmp_eq}
use nw_lab.Vec.{vec_push}

-- `xps_keyval_t`; a string is missing where its allocation failed.
pub record KeyVal : Type 0 where
  pub key : Option Bytes
  pub val : Option Bytes

abbrev pub key_val : Bytes → Bytes → KeyVal
key_val k v = record { key = some k; val = some v }

-- `strcasecmp` on a missing key is a fault.
unfoldable pub get_header : List KeyVal → Bytes → Exec (Option Bytes)
get_header [] key = done none
get_header (h ∷ headers) key = elim h.key [
  | none ↦ fault
  | some k ↦ elim (strcasecmp_eq k key) [ true ↦ done h.val | false ↦ get_header headers key ]
]

-- `given` answers the three allocations, `grown` the growth of the vector.
unfoldable pub set_header :
    (given : Mallocs) (grown : Bool) → List KeyVal → (key val : Bytes) → Code × List KeyVal
set_header given grown headers key val =
    if given 0
    then if given 1 && given 2
      then (ok, vec_push grown headers (key_val key val))
      else (e_fail, headers)
    else (e_fail, headers)

abbrev pub default_buffer_size : ℕ
default_buffer_size = 100000

-- The buffer that is written: its block holds the string `text` and a NUL, and `len` is the
-- string's length.
pub record TextBuffer : Type 0 where
  pub size : ℕ
  pub text : Bytes

-- "key: val\r\n".
abbrev pub header_line : Bytes → Bytes → Bytes
header_line k v = k ++ (b':' ∷ b' ' ∷ (v ++ (b'\r' ∷ b'\n' ∷ [])))

-- `strcat`, with room for the NUL.
append_text : Bytes → TextBuffer → Exec TextBuffer
append_text line b = do
  access (leb (length b.text + length line + 1) b.size)
  done (record b { text = b.text ++ line })

-- The block is doubled, once, where the line does not fit. `given` answers `realloc`.
make_room : (given : Bool) → (header_str_len : ℕ) → TextBuffer → Option TextBuffer
make_room given header_str_len b =
    if ltb (b.size - length b.text) header_str_len
    then if given then some (record b { size = b.size * 2 }) else none
    else some b

append_header : (given : Bool) → KeyVal → TextBuffer → Exec (Option TextBuffer)
append_header given h b = elim h.key [
  | none ↦ fault
  | some k ↦ elim h.val [
    | none ↦ fault
    | some v ↦ elim (make_room given (length k + length v + 5) b) [
      | none ↦ done none
      | some b' ↦ append_text (header_line k v) b' >>= λ b''. done (some b'')
    ]
  ]
]

serialize_from : Mallocs → ℕ → List KeyVal → TextBuffer → Exec (Option TextBuffer)
serialize_from given i [] b = done (some b)
serialize_from given i (h ∷ headers) b = append_header (given i) h b >>= λ r. elim r [
  | none ↦ done none
  | some b' ↦ serialize_from given (i + 1) headers b'
]

-- `struct` and `block` answer the two allocations at the start.
unfoldable pub serialize_headers :
    (struct block : Bool) → Mallocs → List KeyVal → Exec (Option TextBuffer)
unfolding serialize_from append_header make_room append_text
serialize_headers struct block given headers =
    if struct && block
    then serialize_from given 0 headers (record { size = default_buffer_size; text = [] })
    else done none

unfoldable pub status_text : ℕ → Bytes
status_text code =
    if code == 200
    then codes "OK"
    else if code == 400
    then codes "Bad Request"
    else if code == 404
    then codes "Not Found"
    else if code == 500
    then codes "Internal Server Error"
    else codes "Unknown Status"
