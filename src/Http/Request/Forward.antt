-- ===== src/Http/Request/Forward.antt =====
-- src/http/xps_http_req.c: `xps_http_req_serialize`, what is written for the upstream.
use nw_lab.Buffer.{Buffer, buffer_create_lem, contents}
use nw_lab.Http.Headers.Serialize.{pairs, header_text, Short, serialize_headers-header_text}
use nw_lab.Http.HeaderLine.{parse_header_line}
use nw_lab.Http.Request.{HttpReq, process_headers, headers_loop, headers_round, after_line}
use nw_lab.Http.Request.Create.{
  http_req_serialize, put_request, put_request_into, serialize_req_with, after_headers, bad_request,
  http_req_create,
}
use nw_lab.Http.Request.Lines.{line_of, described, process_request_line-described}
use nw_lab.Http.RequestLine.Accepts.{AllTrue, is_target_char, request_line, method_name, line_end}
use nw_lab.Http.State.{Method, HeaderMarks, h_start}
use nw_lab.Status.{e_fail}
use nw_lab.Text.{NoNul}
use nw_lab.Http.HeaderLine.{header_step, is_letter}
use nw_lab.Http.Scan.{scan}
use nw_lab.Memory.{Alloc, Sized, memcpy_all, drop-append_all, take-append_le, take_all}
use nw_lab.Prelude.{
  suc, zero, ◌<◌, Bool, ◌||◌, ◌==◌, codes, ℕ, ◌+◌, ◌≡◌, refl, ap, ◌∙◌, true, Bytes, List, [], ◌∷◌,
  ◌++◌, some, done, Mallocs, length, drop, length-append, length-drop, append_assoc, arith,
}

-- The request line as it was marked, LF, the headers, LF.
abbrev pub request_bytes : (line : Bytes) → List (Bytes × Bytes) → Bytes
request_bytes line hs = line ++ (b'\n' ∷ (header_text hs ++ (b'\n' ∷ [])))

put_request_lem :
    (block line headers : Bytes)
    → length block ≡ length line + 1 + length headers + 1 + 1
    → (last : Bytes) × (put_request block line headers
        ≡ done ((line ++ (b'\n' ∷ (headers ++ (b'\n' ∷ [])))) ++ last))
      × (length last ≡ 1)
unfolding put_request
put_request_lem block line headers e =
    let t1 = drop (length line) block in
    let t2 = drop 1 t1 in
    let t3 = drop (length headers) t2 in
    let l1 = length-drop (length line) block in
    let l2 = length-drop 1 t1 in
    let l3 = length-drop (length headers) t2 in
    let x2 = line ++ (b'\n' ∷ []) in
    let x3 = x2 ++ headers in
    let n2 = length-append line (b'\n' ∷ []) in
    let n3 = length-append x2 headers in
    let joined : ((x3 ++ (b'\n' ∷ [])) ++ drop 1 t3)
        ≡ (line ++ (b'\n' ∷ (headers ++ (b'\n' ∷ [])))) ++ drop 1 t3 =
      simp append_assoc in
    (
      drop 1 t3,
      rw (memcpy_all [] block line 0 refl (omega arith)) (
          rw (memcpy_all line t1 (b'\n' ∷ []) (length line) refl (omega arith)) (
            rw (memcpy_all x2 t2 headers (length line + 1) (omega arith) (omega arith)) (
              memcpy_all x3 t3 (b'\n' ∷ []) (length line + 1 + length headers) (omega arith)
                (omega arith)
              ∙ ap done joined))),
      omega (arith, length-drop 1 t3),
    )

-- Where the allocations succeed and no header line needs more than 100000 bytes, a request is
-- written for the upstream as its request line, a line feed, its headers, and a line feed, into a
-- block of one byte more than that, at position 0.
pub http_req_serialize-request_bytes :
    (given : Mallocs) (a : Alloc) (req : HttpReq) (line : Bytes) (hs : List (Bytes × Bytes))
    (block : Bytes)
    → ((n : ℕ) → given n ≡ true)
    → Sized a
    → a.struct ≡ true
    → req.request_line ≡ some line
    → req.headers ≡ pairs hs
    → Short hs
    → a.block (length line + 1 + length (header_text hs) + 1 + 1) ≡ some block
    → (buff : Buffer) × (http_req_serialize true true given a req ≡ done (some buff))
      × (contents buff ≡ request_bytes line hs)
      × (buff.len ≡ length (request_bytes line hs))
      × (buff.pos ≡ 0)
      × (buff.size ≡ buff.len + 1)
      × (length buff.data_block ≡ buff.size)
unfolding http_req_serialize serialize_req_with put_request_into
http_req_serialize-request_bytes given a req line hs block g sized s el eh short e =
    let (size, written) = serialize_headers-header_text given hs g short in
    let final_len = length line + 1 + length (header_text hs) + 1 in
    let (last, put, one) =
      put_request_lem block line (header_text hs) (sized (final_len + 1) block e) in
    let n1 = length-append line (b'\n' ∷ (header_text hs ++ (b'\n' ∷ []))) in
    let n2 = length-append (header_text hs) (b'\n' ∷ []) in
    let same : final_len ≡ length (request_bytes line hs) = omega arith in
    (
      record {
        size = final_len + 1;
        len = final_len;
        pos = 0;
        data_block = request_bytes line hs ++ last;
      },
      rw (eh, el)
          (rw written
            (rw (buffer_create_lem a (final_len + 1) final_len block (omega arith) s e) (rw put))),
      rw same (
          take-append_le (length (request_bytes line hs)) (request_bytes line hs) last (omega arith)
          ∙ take_all (length (request_bytes line hs)) (request_bytes line hs) (omega arith)),
      same,
      refl,
      refl,
      omega (arith, length-append (request_bytes line hs) last),
    )

parse_refused :
    (block rest : Bytes) (len pos : ℕ) (m : HeaderMarks)
    → drop pos block ≡ b'\n' ∷ rest
    → 0 < len
    → (last : HeaderMarks) × (parse_header_line block len pos h_start m
        ≡ done (record { code = e_fail; state = h_start; pos = pos; marks = last }))
unfolding parse_header_line header_step is_letter scan
parse_refused block rest zero pos m e h = absurd (omega arith)
parse_refused block rest (suc len) pos m e h = (m, rw e)

-- A line feed in front of the headers is refused.
process_headers_refused :
    (round : ℕ → Mallocs) (req : HttpReq) (buff : Buffer) (rest : Bytes)
    → drop buff.pos buff.data_block ≡ b'\n' ∷ rest
    → 0 < buff.len
    → req.parser_state ≡ h_start
    → (last : HttpReq) × (process_headers round req buff ≡ done (some (e_fail, last, buff)))
unfolding process_headers headers_loop headers_round after_line
process_headers_refused round req buff rest e h s =
    let (m, refused) = parse_refused buff.data_block rest buff.len buff.pos req.header_marks e h in
    let more : length buff.data_block + 1 ≡ suc (length buff.data_block) = omega arith in
    (
      record req { headers = []; parser_state = h_start; header_marks = m },
      rw (more, s) (rw refused),
    )

pub request_line-line_of :
    (method : Method) (target : Bytes) (minor next : ℕ) (crlf : Bool) (rest : Bytes)
    → request_line method target minor crlf (next ∷ rest)
      ≡ line_of method target minor crlf ++ (next ∷ rest)
request_line-line_of method target minor next crlf rest = simp append_assoc

pub length-line_of :
    (method : Method) (target : Bytes) (minor : ℕ) (crlf : Bool)
    → length (line_of method target minor crlf)
      ≡ length (method_name method) + 2 + length target + 9 + length (line_end crlf)
length-line_of method target minor crlf =
    let version = b' ' ∷ (codes "HTTP/1." ++ (minor ∷ line_end crlf)) in
    omega (
      arith,
      length-append (method_name method) (b' ' ∷ b'/' ∷ (target ++ version)),
      length-append target version,
    )

-- The program's own parser refuses what the program writes for the upstream: of a request line in
-- origin form, as the parser cut it out, with any headers behind it, `xps_http_req_create` makes
-- the error 400, for the marked line holds its line end already and a second line end follows.
pub http_req_create-request_bytes :
    (given : Mallocs) (round : ℕ → Mallocs) (method : Method) (target : Bytes) (minor size : ℕ)
    (crlf : Bool) (hs : List (Bytes × Bytes))
    → ((n : ℕ) → given n ≡ true)
    → AllTrue is_target_char target
    → NoNul target
    → (minor == b'0' || minor == b'1') ≡ true
    → let bytes = request_bytes (line_of method target minor crlf) hs in
      let buff : Buffer = record { size = size; len = length bytes; pos = 0; data_block = bytes } in
      (pos : ℕ) × (http_req_create true given round buff
        ≡ done (some (bad_request (record buff { pos = pos }))))
unfolding http_req_create after_headers
http_req_create-request_bytes given round method target minor size crlf hs g t n d =
    let rest = header_text hs ++ (b'\n' ∷ []) in
    let line = line_of method target minor crlf in
    let bytes = request_bytes line hs in
    let e = length (method_name method) + 2 + length target + 9 + length (line_end crlf) in
    let same = request_line-line_of method target minor b'\n' crlf rest in
    let parsed =
      process_request_line-described given method target rest minor b'\n' size crlf g t n d in
    let behind : Buffer = record { size = size; len = length bytes; pos = e; data_block = bytes } in
    let at : drop e bytes ≡ b'\n' ∷ rest =
      rw (← length-line_of method target minor crlf) (drop-append_all line (b'\n' ∷ rest)) in
    let (last, refused) =
      process_headers_refused round (described method target minor crlf) behind rest at
        (omega (arith, length-append line (b'\n' ∷ rest))) refl in
    (e, rw (rw same at parsed) (rw refused))
