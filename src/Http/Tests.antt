-- ===== src/Http/Tests.antt =====
-- The parsers and the serialisers of src/http/xps_http.c and src/http/xps_http_req.c on concrete requests.
use nw_lab.Buffer.{Buffer, contents}
use nw_lab.Http.Headers.{key_val, serialize_headers}
use nw_lab.Http.Headers.Serialize.{pairs, header_text, serialize_headers-overrun}
use nw_lab.Http.Request.{HttpReq, fresh_req, process_request_line, process_headers}
use nw_lab.Http.Headers.{get_header}
use nw_lab.Http.Request.Create.{
  http_req_serialize, http_req_create, bad_request, returned, body_len_of, size_of_int,
}
use nw_lab.Http.Request.Ends.{process_headers-ends}
use nw_lab.Http.Request.Forward.{
  request_bytes, http_req_serialize-request_bytes, http_req_create-request_bytes,
}
use nw_lab.Http.Request.Whole.{whole_request, http_req_create-whole_request}
use nw_lab.Http.Response.{HttpRes, http_res_serialize}
use nw_lab.Http.Response.Serialize.{IsBody, response_bytes, http_res_serialize-response_bytes}
use nw_lab.Memory.{Alloc, Sized}
use nw_lab.Text.{strcasecmp_eq, atoi}
use nw_lab.Http.Request.Headers.{process_headers-header_text}
use nw_lab.Http.Request.Headers.Rounds.{AllHeaders}
use nw_lab.Http.Request.Lines.{line_of, described, process_request_line-described}
use nw_lab.Http.RequestLine.{parse_request_line}
use nw_lab.Http.RequestLine.Accepts.{
  AllTrue, is_target_char, request_line, marks_of, parse_request_line-request_line,
}
use nw_lab.Http.RequestLine.Spans.{Answer, parse_request_line-safe}
use nw_lab.Http.Scan.{Parse}
use nw_lab.Http.State.{HeaderMarks, post, rl_start, h_start, no_marks, Marks}
use nw_lab.Prelude.{
  replicate, length-replicate, ℕ, zero, suc, ◌+◌, ◌≡◌, ◌≢◌, none, refl, true, Bytes, List, [], ◌∷◌,
  ◌++◌, some, done, fault, Mallocs, codes, arith, length,
}
use nw_lab.Status.{ok}
use nw_lab.Text.{NoNul}
use nw_lab.Http.HeaderLine.{is_letter}
use nw_lab.Http.HeaderLine.Accepts.{IsKey}

abbrev sample : Bytes
sample = codes "GET /a?b=1 HTTP/1.1\r\nHost: x\r\n\r\n"

abbrev always : Mallocs
always n = true

abbrev target : Bytes
target = codes "a?b=1"

target-AllTrue : AllTrue is_target_char target
target-AllTrue = (refl, (refl, (refl, (refl, (refl, tt)))))

target-NoNul : NoNul target
target-NoNul = (refl, (refl, (refl, (refl, (refl, tt)))))

abbrev behind_line : Bytes
behind_line = codes "ost: x\r\n\r\n"

parse_request_line-safe_example :
    (r : Parse Marks) × (parse_request_line sample 32 0 rl_start no_marks ≡ done r) × Answer 32 0 r
parse_request_line-safe_example = parse_request_line-safe sample 32 0 (omega arith)

abbrev line_block : Bytes
line_block = request_line post target b'1' true (b'H' ∷ behind_line)

parse_request_line-request_line_example :
    parse_request_line line_block (length line_block) 0 rl_start no_marks
    ≡ done (record { code = ok; state = h_start; pos = 22; marks = marks_of post 11 22 })
parse_request_line-request_line_example =
    parse_request_line-request_line post target behind_line b'1' b'H' true target-AllTrue refl

abbrev line_buffer : Buffer
line_buffer = record { size = 64; len = length line_block; pos = 0; data_block = line_block }

process_request_line-described_example :
    process_request_line always fresh_req line_buffer
    ≡ done (ok, described post target b'1' true, record line_buffer { pos = 22 })
process_request_line-described_example =
    process_request_line-described always post target behind_line b'1' b'H' 64 true (λ n. refl)
      target-AllTrue target-NoNul refl

abbrev two_headers : List (Bytes × Bytes)
two_headers = (codes "Host", codes "nw.lab") ∷ (codes "Content-Length", codes "5") ∷ []

abbrev header_buffer : Buffer
header_buffer = record {
  size = 100;
  len = length (header_text two_headers) + 9;
  pos = 2;
  data_block = codes "x\n" ++ (header_text two_headers ++ codes "\r\nhello");
}

host-IsKey : IsKey (codes "Host")
unfolding is_letter
host-IsKey = (refl, (refl, (refl, (refl, tt))))

length-IsKey : IsKey (codes "Content-Length")
unfolding is_letter
length-IsKey = ground arith

two_headers-AllHeaders : AllHeaders two_headers
two_headers-AllHeaders = (
  host-IsKey,
  (refl, refl, (refl, (refl, (refl, (refl, (refl, tt)))))),
  (length-IsKey, (refl, refl, tt), tt),
)

process_headers-header_text_example :
    (m : HeaderMarks) × (process_headers (λ n. always) fresh_req header_buffer
      ≡ done (
          some (
            ok,
            record fresh_req {
              parser_state = h_start;
              header_marks = m;
              headers = pairs two_headers;
            },
            record header_buffer { pos = 2 + length (header_text two_headers) + 1 },
          )))
process_headers-header_text_example =
    process_headers-header_text (λ n. always) (codes "x\n") two_headers (codes "hello") fresh_req
      header_buffer (λ n m. refl) (omega arith) two_headers-AllHeaders refl refl (omega arith) refl

-- A header section without its end, whose lines are read until a character is refused.
abbrev fresh_start : HttpReq
fresh_start = record fresh_req { parser_state = h_start }

abbrev cut_short : Buffer
cut_short = record { size = 20; len = 12; pos = 0; data_block = codes "a: b\r\nc: d\r\n" }

process_headers-ends_example : process_headers (λ n. always) fresh_start cut_short ≢ done none
process_headers-ends_example =
    process_headers-ends (λ n. always) fresh_start cut_short refl (omega arith)

fill : ℕ → Bytes
fill zero = []
fill (suc n) = b'x' ∷ fill n

length-fill : (n : ℕ) → length (fill n) ≡ n
unfolding fill
length-fill zero = refl
length-fill (suc n) = omega (arith, length-fill n)

serialize_headers-overrun_example :
    serialize_headers true true always (key_val (codes "X-Token") (fill 250000) ∷ []) ≡ fault
serialize_headers-overrun_example =
    serialize_headers-overrun always (codes "X-Token") (fill 250000) [] refl
      (omega (arith, length-fill 250000))

abbrev zeroed : Alloc
zeroed = record { struct = true; block = λ n. some (replicate n 0) }

zeroed-Sized : Sized zeroed
zeroed-Sized n b e = grind (arith, length-replicate {A = ℕ} n 0)

abbrev page : Buffer
page = record { size = 8; len = 5; pos = 0; data_block = codes "hello..." }

page-IsBody : IsBody (some page)
page-IsBody = record { len_le = omega arith; size_le = omega arith }

abbrev response : HttpRes
response = record {
  response_line = codes "HTTP/1.1 200 OK\r\n";
  headers = pairs two_headers;
  body = some page;
}

abbrev response_text : Bytes
response_text = response_bytes (codes "HTTP/1.1 200 OK\r\n") two_headers (some page)

http_res_serialize-response_bytes_example :
    http_res_serialize true true always zeroed response
    ≡ done (
        some (record {
          size = length response_text;
          len = length response_text;
          pos = 0;
          data_block = response_text;
        }))
http_res_serialize-response_bytes_example =
    http_res_serialize-response_bytes always zeroed response two_headers
      (replicate (length response_text) 0) (λ n. refl) zeroed-Sized refl refl
      (omega arith, (omega arith, tt)) page-IsBody refl

abbrev post_line : Bytes
post_line = line_of post target b'1' true

abbrev parsed : HttpReq
parsed = record (described post target b'1' true) { headers = pairs two_headers }

http_req_serialize-request_bytes_example :
    (buff : Buffer) × (http_req_serialize true true always zeroed parsed ≡ done (some buff))
    × (contents buff ≡ request_bytes post_line two_headers)
    × (buff.len ≡ length (request_bytes post_line two_headers))
    × (buff.pos ≡ 0)
    × (buff.size ≡ buff.len + 1)
    × (length buff.data_block ≡ buff.size)
http_req_serialize-request_bytes_example =
    http_req_serialize-request_bytes always zeroed parsed post_line two_headers
      (replicate (length post_line + 1 + length (header_text two_headers) + 1 + 1) 0) (λ n. refl)
      zeroed-Sized refl refl refl (omega arith, (omega arith, tt)) refl

abbrev forwarded : Buffer
forwarded = record {
  size = 200;
  len = length (request_bytes post_line two_headers);
  pos = 0;
  data_block = request_bytes post_line two_headers;
}

http_req_create-request_bytes_example :
    (pos : ℕ) × (http_req_create true always (λ n. always) forwarded
      ≡ done (some (bad_request (record forwarded { pos = pos }))))
http_req_create-request_bytes_example =
    http_req_create-request_bytes always (λ n. always) post target b'1' 200 true two_headers
      (λ n. refl) target-AllTrue target-NoNul refl

abbrev whole : Buffer
whole = record {
  size = 200;
  len = length (whole_request post target b'1' true two_headers (codes "hello"));
  pos = 0;
  data_block = whole_request post target b'1' true two_headers (codes "hello");
}

http_req_create-whole_request_example :
    let last = length post_line + length (header_text two_headers) + 1 in
    (m : HeaderMarks) × (http_req_create true always (λ n. always) whole
      ≡ done (
          some (record {
            error = returned ok;
            req = some (record (described post target b'1' true) {
              header_marks = m;
              headers = pairs two_headers;
              header_len = last;
              body_len = 5;
            });
            buff = record whole { pos = last };
          })))
http_req_create-whole_request_example =
    http_req_create-whole_request always (λ n. always) post target b'1' 200 true two_headers
      (codes "hello") (codes "nw.lab") (some (codes "5")) 5 (λ n. refl) (λ n m. refl) target-AllTrue
      target-NoNul refl (omega arith) two_headers-AllHeaders host_found length_found body_len_known
  where
    host_found : get_header (pairs two_headers) (codes "Host") ≡ done (some (codes "nw.lab"))
    host_found = unfold get_header strcasecmp_eq in refl

    length_found : get_header (pairs two_headers) (codes "Content-Length") ≡ done (some (codes "5"))
    length_found = unfold get_header strcasecmp_eq in refl

    body_len_known : body_len_of (some (codes "5")) ≡ done 5
    body_len_known = unfold body_len_of atoi size_of_int in refl
