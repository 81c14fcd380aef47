-- ===== src/Http/Request/Headers.antt =====
-- src/http/xps_http_req.c: the loop of `http_process_headers` on header lines that the parser reads.
pub mod Rounds
use nw_lab.Buffer.{Buffer}
use nw_lab.Http.HeaderLine.{parse_header_line, header_step, is_letter}
use nw_lab.Http.HeaderLine.Accepts.{
  is_key_char, is_val_char, AllTrue, IsKey, IsVal, line_marks, header_line-next, header_line-last,
}
use nw_lab.Http.Headers.{key_val, header_line}
use nw_lab.Http.Headers.Serialize.{pairs, header_text, length-header_line}
use nw_lab.Http.Request.{
  HttpReq, push_header, leave, repeat, after_line, headers_round, headers_loop, process_headers,
}
use nw_lab.Http.Scan.{scan, stopped}
use nw_lab.Http.Scan.More.{scan_more}
use nw_lab.Http.State.{HeaderMarks, h_start}
use nw_lab.Memory.{drop-append_all}
use nw_lab.Prelude.{
  ℕ, zero, suc, ◌+◌, ◌≤◌, ◌<◌, ◌≡◌, refl, ap, ◌∙◌, true, Bytes, List, [], ◌∷◌, ◌++◌, some, done,
  Mallocs, length, drop, arith, append_assoc, append-nil, length-append,
}
use nw_lab.Status.{Code, ok, e_next}
use nw_lab.Text.{NoNul}
use nw_lab.Utils.{str_from_ptrs}
use nw_lab.Utils.Slices.{str_from_ptrs_at}
use Rounds.{
  AllHeaders, line_then, headers_then, header_text-then, with_header, round_next, round_last,
  section_end, length-header_text, headers_then-next, line_length,
}

-- What the loop ends with, for headers `hs` that begin at `p`.
abbrev Reads :
    (given : ℕ → Mallocs) (fuel i : ℕ) → HttpReq → Buffer → (p : ℕ) → List (Bytes × Bytes) → Type 0
Reads given fuel i req buff p hs =
    (m : HeaderMarks) × (headers_loop given fuel i req buff
      ≡ done (
          some (
            ok,
            record req {
              parser_state = h_start;
              header_marks = m;
              headers = req.headers ++ pairs hs;
            },
            record buff { pos = section_end p hs },
          )))

section_end_last :
    (p : ℕ) (k v : Bytes) → section_end p ((k, v) ∷ []) ≡ p + length k + 2 + length v + 3
section_end_last p k v = rw append-nil (omega (arith, length-header_line k v))

section_end_next :
    (p : ℕ) (k v : Bytes) (hs : List (Bytes × Bytes))
    → section_end p ((k, v) ∷ hs) ≡ section_end (p + length k + 2 + length v + 2) hs
section_end_next p k v hs =
    omega (arith, length-header_line k v, length-append (header_line k v) (header_text hs))

headers_loop-Reads :
    (given : ℕ → Mallocs) (fuel i p : ℕ) (pre k v : Bytes) (hs : List (Bytes × Bytes))
    (more : Bytes) (req : HttpReq) (buff : Buffer)
    → ((n m : ℕ) → given n m ≡ true)
    → length hs < fuel
    → buff.data_block ≡ pre ++ headers_then ((k, v) ∷ hs) more
    → p ≡ length pre
    → AllHeaders ((k, v) ∷ hs)
    → req.parser_state ≡ h_start
    → buff.pos ≡ p
    → length (headers_then ((k, v) ∷ hs) more) ≤ buff.len
    → Reads given fuel i req buff p ((k, v) ∷ hs)
unfolding headers_loop
headers_loop-Reads given zero i p pre k v hs more req buff g f is at h begins here enough =
    elim f [ ]
headers_loop-Reads given (suc fuel) i p pre k v [] more req buff g f is at h begins here enough =
    let q = p + length k + 2 + length v + 3 in
    let run = header_line-last k v more p req.header_marks h.0 h.1 in
    (
      line_marks p k v,
      rw (section_end_last p k v) (
          rw (
            round_last (given i) pre k v (b'\r' ∷ b'\n' ∷ more) p req buff (g i) is at h.0 h.1
              begins here enough q run)),
    )
headers_loop-Reads given (suc fuel) i p pre k v ((k', v') ∷ hs) more req buff g f is at h begins
      here enough =
    let q = p + length k + 2 + length v + 2 in
    let (next, later, letter, first) = headers_then-next k' v' hs more h.2.0 in
    let rest = headers_then ((k', v') ∷ hs) more in
    let line = header_line k v in
    let run : scan header_step (length (line_then k v rest)) p (line_then k v rest) h_start
          req.header_marks
        ≡ done (stopped e_next q (line_marks p k v)) =
      rw first (header_line-next k v later next p req.header_marks h.0 h.1 letter) in
    let round =
      round_next (given i) pre k v rest p req buff (g i) is at h.0 h.1 begins here enough q run in
    let (marks, ends) =
      headers_loop-Reads given fuel (i + 1) q (pre ++ line) k' v' hs more (with_header p k v req)
        (record buff { pos = q }) g (omega arith) (is ∙ simp append_assoc)
        (omega (arith, length-append pre line, length-header_line k v)) h.2 refl refl
        (omega (arith, line_length k v rest)) in
    (
      marks,
      rw (section_end_next p k v ((k', v') ∷ hs)) (
          rw (round, ends)
            (rw (append_assoc req.headers (key_val k v ∷ []) (pairs ((k', v') ∷ hs))))),
    )

length-header_text_le : (hs : List (Bytes × Bytes)) → length hs ≤ length (header_text hs)
length-header_text_le [] = omega arith
length-header_text_le ((k, v) ∷ hs) = omega (
  arith,
  length-header_text_le hs,
  length-header_line k v,
  length-append (header_line k v) (header_text hs),
)

-- Where the allocations succeed and the position stands at a header section as
-- `xps_http_serialize_headers` writes it, with an empty line behind it, at least one header, keys
-- of letters and dashes that begin with a letter, and values on one line that are not empty and do
-- not begin with a space: `http_process_headers` returns OK with exactly these keys and values, in their order, as
-- the request's headers, changes nothing else of the request but the parser's own fields, and leaves the position at the LF of the empty line. The buffer's length covers the section.
pub process_headers-header_text :
    (given : ℕ → Mallocs) (pre : Bytes) (hs : List (Bytes × Bytes)) (more : Bytes) (req : HttpReq)
    (buff : Buffer)
    → ((n m : ℕ) → given n m ≡ true)
    → 0 < length hs
    → AllHeaders hs
    → buff.data_block ≡ pre ++ (header_text hs ++ (b'\r' ∷ b'\n' ∷ more))
    → buff.pos ≡ length pre
    → length (header_text hs) + 2 + length more ≤ buff.len
    → req.parser_state ≡ h_start
    → (m : HeaderMarks) × (process_headers given req buff
        ≡ done (
            some (
              ok,
              record req { parser_state = h_start; header_marks = m; headers = pairs hs },
              record buff { pos = buff.pos + length (header_text hs) + 1 },
            )))
unfolding process_headers
process_headers-header_text given pre [] more req buff g n h is at enough begins = elim n [ ]
process_headers-header_text given pre ((k, v) ∷ hs) more req buff g n h is at enough begins =
    let all = (k, v) ∷ hs in
    headers_loop-Reads given (length buff.data_block + 1) 0 buff.pos pre k v hs more
      (record req { headers = [] }) buff g
      (rw is (
        omega (
          arith,
          length-header_text_le all,
          length-append pre (header_text all ++ (b'\r' ∷ b'\n' ∷ more)),
          length-append (header_text all) (b'\r' ∷ b'\n' ∷ more),
        )))
      (is ∙ ap (◌++◌ pre) (header_text-then all more)) at h begins refl
      (rw (length-header_text all more) enough)
