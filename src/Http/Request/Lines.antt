-- ===== src/Http/Request/Lines.antt =====
-- What a request line gives once it is cut into strings.
use nw_lab.Buffer.{Buffer}
use nw_lab.Http.Request.{HttpReq, fresh_req, cut_request_line, process_request_line}
use nw_lab.Http.RequestLine.Accepts.{
  method_name, is_target_char, AllTrue, line_end, request_line, marks_of,
  parse_request_line-request_line,
}
use nw_lab.Http.State.{Method, get, head, post, put, delete, options, trace, connect, h_start}
use nw_lab.Prelude.{
  ℕ, ◌+◌, ◌≡◌, refl, Bool, true, false, ◌||◌, Bytes, [], ◌∷◌, ◌++◌, some, done, Mallocs, ◌==◌,
  length, codes, arith, append_assoc, length-append,
}
use nw_lab.Status.{ok}
use nw_lab.Text.{NoNul, NoNul-append}
use nw_lab.Utils.{str_from_ptrs}
use nw_lab.Utils.Slices.{str_from_ptrs_at}

-- The line itself, with its end.
abbrev pub line_of : Method → (target : Bytes) → (minor : ℕ) → (crlf : Bool) → Bytes
line_of method target minor crlf =
    method_name method
    ++ (b' ' ∷ b'/' ∷ (target ++ (b' ' ∷ (codes "HTTP/1." ++ (minor ∷ line_end crlf)))))

-- The request that such a line describes.
abbrev pub described : Method → (target : Bytes) → (minor : ℕ) → (crlf : Bool) → HttpReq
described method target minor crlf =
    let q = length (method_name method) + 2 + length target in
    record fresh_req {
      parser_state = h_start;
      marks = marks_of method q (q + 9 + length (line_end crlf));
      request_line = some (line_of method target minor crlf);
      method = some (method_name method);
      uri = some (b'/' ∷ target);
      port = (false, 80);
      path = some (b'/' ∷ target);
      pathname = some (b'/' ∷ target);
      http_version = some (b'1' ∷ b'.' ∷ minor ∷ []);
    }

method_name-NoNul : (method : Method) → NoNul (method_name method)
method_name-NoNul get = ground arith
method_name-NoNul head = ground arith
method_name-NoNul post = ground arith
method_name-NoNul put = ground arith
method_name-NoNul delete = ground arith
method_name-NoNul options = ground arith
method_name-NoNul trace = ground arith
method_name-NoNul connect = ground arith

version-NoNul :
    (minor : ℕ) → (minor == b'0' || minor == b'1') ≡ true → NoNul (b'1' ∷ b'.' ∷ minor ∷ [])
version-NoNul minor d = ground arith

tail-NoNul :
    (minor : ℕ) (crlf : Bool)
    → (minor == b'0' || minor == b'1') ≡ true
    → NoNul (b' ' ∷ (codes "HTTP/1." ++ (minor ∷ line_end crlf)))
tail-NoNul minor true d = ground arith
tail-NoNul minor false d = ground arith

module _ (given : Mallocs) (method : Method) (target rest : Bytes) (minor next : ℕ) (crlf : Bool)
    (all_given : (n : ℕ) → given n ≡ true) (no_nul : NoNul target)
    (digit : (minor == b'0' || minor == b'1') ≡ true) where
  abbrev block : Bytes
  block = request_line method target minor crlf (next ∷ rest)

  abbrev q : ℕ
  q = length (method_name method) + 2 + length target

  abbrev e : ℕ
  e = q + 9 + length (line_end crlf)

  line-NoNul : NoNul (line_of method target minor crlf)
  line-NoNul =
      NoNul-append (method_name method) (b' ' ∷ b'/' ∷ (target ++ _)) (method_name-NoNul method)
        (refl, (refl, NoNul-append target _ no_nul (tail-NoNul minor crlf digit)))

  line_length : e ≡ 0 + length (line_of method target minor crlf)
  line_length = omega (
    arith,
    length-append (method_name method)
        (b' ' ∷ b'/' ∷ (target ++ (b' ' ∷ (codes "HTTP/1." ++ (minor ∷ line_end crlf))))),
    length-append target (b' ' ∷ (codes "HTTP/1." ++ (minor ∷ line_end crlf))),
  )

  cut_line :
      str_from_ptrs (given 0) block (some 0) (some e)
      ≡ done (some (line_of method target minor crlf))
  cut_line =
      str_from_ptrs_at (given 0) block [] (line_of method target minor crlf) (next ∷ rest) 0 e
        (all_given 0) (simp append_assoc) line-NoNul refl line_length

  cut_method :
      str_from_ptrs (given 1) block (some 0) (some (length (method_name method)))
      ≡ done (some (method_name method))
  cut_method =
      str_from_ptrs_at (given 1) block [] (method_name method) _ 0 _ (all_given 1) refl
        (method_name-NoNul method) refl (omega arith)

  cut_target :
      (n : ℕ)
      → str_from_ptrs (given n) block (some (length (method_name method) + 1)) (some q)
        ≡ done (some (b'/' ∷ target))
  cut_target n =
      str_from_ptrs_at (given n) block (method_name method ++ (b' ' ∷ [])) (b'/' ∷ target)
        (b' ' ∷ (codes "HTTP/1." ++ (minor ∷ (line_end crlf ++ (next ∷ rest)))))
        (length (method_name method) + 1) q (all_given n) (simp append_assoc) (refl, no_nul)
        (omega (arith, length-append (method_name method) (b' ' ∷ []))) (omega arith)

  cut_version :
      str_from_ptrs (given 8) block (some (q + 6)) (some (q + 8 + 1))
      ≡ done (some (b'1' ∷ b'.' ∷ minor ∷ []))
  cut_version =
      str_from_ptrs_at (given 8) block
        (method_name method ++ (b' ' ∷ b'/' ∷ (target ++ codes " HTTP/")))
        (b'1' ∷ b'.' ∷ minor ∷ []) (line_end crlf ++ (next ∷ rest)) (q + 6) (q + 8 + 1)
        (all_given 8) (simp append_assoc) (version-NoNul minor digit)
        (omega (
          arith,
          length-append (method_name method) (b' ' ∷ b'/' ∷ (target ++ codes " HTTP/")),
          length-append target (codes " HTTP/"),
        ))
        (omega arith)

  cut_request_line_lem :
      (req : HttpReq)
      → req ≡ record fresh_req { parser_state = h_start; marks = marks_of method q e }
      → cut_request_line given block req ≡ done (described method target minor crlf)
  unfolding cut_request_line
  cut_request_line_lem req same = rw same (simp (cut_line, cut_method, cut_target, cut_version))

-- A request line in origin form, at the start of a buffer that holds at least one character more,
-- is cut into its strings: the line with its end, the method, the target as URI, path and pathname
-- (the query is part of the pathname too), the version; the port is 80, and there is neither
-- schema nor host. The buffer's position is then behind the line.
pub process_request_line-described :
    (given : Mallocs) (method : Method) (target rest : Bytes) (minor next size : ℕ) (crlf : Bool)
    → ((n : ℕ) → given n ≡ true)
    → AllTrue is_target_char target
    → NoNul target
    → (minor == b'0' || minor == b'1') ≡ true
    → let block = request_line method target minor crlf (next ∷ rest) in
      let buff : Buffer = record { size = size; len = length block; pos = 0; data_block = block } in
      process_request_line given fresh_req buff
      ≡ done (
        ok,
        described method target minor crlf,
        record buff {
          pos = length (method_name method) + 2 + length target + 9 + length (line_end crlf);
        },
      )
unfolding process_request_line
process_request_line-described given method target rest minor next size crlf g t n d =
    rw (parse_request_line-request_line method target rest minor next crlf t d)
      (rw (cut_request_line_lem given method target rest minor next crlf g n d _ refl))
