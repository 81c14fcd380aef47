-- ===== src/Http/Request/Whole.antt =====
-- src/http/xps_http_req.c: `xps_http_req_create` on a whole request.
use nw_lab.Buffer.{Buffer}
use nw_lab.Http.Headers.{get_header}
use nw_lab.Http.Headers.Serialize.{pairs, header_text}
use nw_lab.Http.Request.{HttpReq}
use nw_lab.Http.Request.Create.{
  is_version_1_1, returned, body_len_of, find_host, finish_req, after_headers, http_req_create,
}
use nw_lab.Http.Request.Forward.{request_line-line_of, length-line_of}
use nw_lab.Http.Request.Headers.{process_headers-header_text}
use nw_lab.Http.Request.Headers.Rounds.{AllHeaders, header_text-then, headers_then-next}
use nw_lab.Http.Request.Lines.{line_of, described, process_request_line-described}
use nw_lab.Http.RequestLine.Accepts.{AllTrue, is_target_char, request_line, method_name, line_end}
use nw_lab.Http.State.{Method, HeaderMarks}
use nw_lab.Prelude.{
  ℕ, ◌+◌, ◌<◌, ◌≡◌, refl, ap, ◌∙◌, sym, Bool, true, false, ◌&&◌, ◌||◌, ◌==◌, Bytes, List, [], ◌∷◌,
  ◌++◌, Option, some, done, Mallocs, length, codes, arith, length-append,
}
use nw_lab.Status.{ok}
use nw_lab.Text.{NoNul}

-- The bytes of a request: its line, its headers, an empty line, and what follows.
abbrev pub whole_request :
    Method → (target : Bytes) → (minor : ℕ) → (crlf : Bool) → List (Bytes × Bytes) → Bytes → Bytes
whole_request method target minor crlf hs body =
    line_of method target minor crlf ++ (header_text hs ++ (b'\r' ∷ b'\n' ∷ body))

unless_missing :
    {A : Type 0} (b : Bool) (x y : A) → (elim (b && false) [ true ↦ x | false ↦ y ]) ≡ y
unless_missing true x y = refl
unless_missing false x y = refl

finish_req_lem :
    (req : HttpReq) (buff : Buffer) (host : Bytes) (len_str : Option Bytes) (n : ℕ)
    → get_header req.headers (codes "Host") ≡ done (some host)
    → get_header req.headers (codes "Content-Length") ≡ done len_str
    → body_len_of len_str ≡ done n
    → finish_req req buff
      ≡ done (record {
        error = returned ok;
        req = some (record req { header_len = buff.pos; body_len = n });
        buff = buff;
      })
unfolding finish_req find_host
finish_req_lem req buff host len_str n h l b =
    rw l (rw b (rw h (unless_missing (is_version_1_1 req.http_version) _ _)))

-- A whole request is read: a request line in origin form, at least one header, keys of letters and
-- dashes that begin with a letter, values on one line that are not empty and do not begin
-- with a space, an empty line, and whatever follows. Where the allocations succeed, a host header is there, and the value
-- of Content-Length, if there is one, is an `int`: `xps_http_req_create` returns OK with the strings
-- of the line, with exactly these headers, with that length of the body, and with the offset of the
-- last LF of the empty line as the length of the header; the buffer's position is there too.
pub http_req_create-whole_request :
    (line : Mallocs) (round : ℕ → Mallocs) (method : Method) (target : Bytes) (minor size : ℕ)
    (crlf : Bool) (hs : List (Bytes × Bytes)) (body host : Bytes) (len_str : Option Bytes) (n : ℕ)
    → ((i : ℕ) → line i ≡ true)
    → ((i j : ℕ) → round i j ≡ true)
    → AllTrue is_target_char target
    → NoNul target
    → (minor == b'0' || minor == b'1') ≡ true
    → 0 < length hs
    → AllHeaders hs
    → get_header (pairs hs) (codes "Host") ≡ done (some host)
    → get_header (pairs hs) (codes "Content-Length") ≡ done len_str
    → body_len_of len_str ≡ done n
    → let bytes = whole_request method target minor crlf hs body in
      let last = length (line_of method target minor crlf) + length (header_text hs) + 1 in
      let buff : Buffer = record { size = size; len = length bytes; pos = 0; data_block = bytes } in
      (m : HeaderMarks) × (http_req_create true line round buff
        ≡ done (
            some (record {
              error = returned ok;
              req = some (record (described method target minor crlf) {
                header_marks = m;
                headers = pairs hs;
                header_len = last;
                body_len = n;
              });
              buff = record buff { pos = last };
            })))
unfolding http_req_create after_headers
http_req_create-whole_request line round method target minor size crlf [] body host len_str n g g' t
      nn d more h eh el eb =
    elim more [ ]
http_req_create-whole_request line round method target minor size crlf ((k, v) ∷ hs) body host
      len_str n g g' t nn d more h eh el eb =
    let all = (k, v) ∷ hs in
    let rest = header_text all ++ (b'\r' ∷ b'\n' ∷ body) in
    let first_line = line_of method target minor crlf in
    let bytes = first_line ++ rest in
    let e = length (method_name method) + 2 + length target + 9 + length (line_end crlf) in
    let at = sym (length-line_of method target minor crlf) in
    let (next, later, letter, begins) = headers_then-next k v hs body h.0 in
    let begins' : rest ≡ next ∷ later = header_text-then all body ∙ begins in
    let whole : request_line method target minor crlf (next ∷ later) ≡ bytes =
      request_line-line_of method target minor next crlf later
      ∙ ap (◌++◌ first_line) (sym begins') in
    let parsed =
      rw whole at
        (process_request_line-described line method target later minor next size crlf g t nn d) in
    let behind : Buffer = record { size = size; len = length bytes; pos = e; data_block = bytes } in
    let (m, read) =
      process_headers-header_text round first_line all body (described method target minor crlf)
        behind g' more h refl at
        (omega (
          arith,
          length-append first_line rest,
          length-append (header_text all) (b'\r' ∷ b'\n' ∷ body),
        ))
        refl in
    (
      m,
      rw (length-line_of method target minor crlf) (
          rw parsed (
            rw read (
              rw (
                finish_req_lem
                  (record (described method target minor crlf) {
                    header_marks = m;
                    headers = pairs all;
                  })
                  (record behind { pos = e + length (header_text all) + 1 }) host len_str n eh el
                  eb)))),
    )
