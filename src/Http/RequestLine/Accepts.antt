-- ===== src/Http/RequestLine/Accepts.antt =====
-- The request lines that the parser is sure to accept, and what it marks in them.
use nw_lab.Http.RequestLine.{request_step, parse_request_line, method_of}
use nw_lab.Http.Scan.{scan, Outcome, conclude, stopped}
use nw_lab.Http.State.{
  ParserState, Marks, Method, get, head, post, put, delete, options, trace, connect, h_start,
  rl_start, rl_path, rl_pathname, rl_version_start, no_marks,
}
use nw_lab.Prelude.{
  ℕ, ◌+◌, ◌≡◌, refl, ap, ◌∙◌, Bool, true, false, ◌||◌, not, Bytes, [], ◌∷◌, ◌++◌, none, some, Exec,
  done, ◌>>=◌, ◌==◌, length, codes, arith,
}
use nw_lab.Status.{ok}

-- The methods as the server reads them.
abbrev pub method_name : Method → Bytes
method_name get = codes "GET"
method_name head = codes "HEAD"
method_name post = codes "POST"
method_name put = codes "PUT"
method_name delete = codes "DELETE"
method_name options = codes "OPTIONS"
method_name trace = codes "TRACE"
method_name connect = codes "CONNECT"

-- Every character but the space, CR and LF.
abbrev pub is_target_char : ℕ → Bool
is_target_char c = not (c == b' ' || c == b'\r' || c == b'\n')

abbrev pub AllTrue : (ℕ → Bool) → Bytes → Type 0
AllTrue p [] = Unit {0}
AllTrue p (c ∷ cs) = (p c ≡ true) × AllTrue p cs

-- The end of the line: CR LF, or LF alone.
abbrev pub line_end : Bool → Bytes
line_end true = b'\r' ∷ b'\n' ∷ []
line_end false = b'\n' ∷ []

-- "METHOD /target HTTP/1.d" and its end.
abbrev pub request_line : Method → (target : Bytes) → (minor : ℕ) → (crlf : Bool) → Bytes → Bytes
request_line method target minor crlf rest =
    method_name method
    ++ (b' ' ∷ b'/' ∷ (target ++ (b' ' ∷ (codes "HTTP/1." ++ (minor ∷ (line_end crlf ++ rest))))))

-- All the characters that are left, from `p` on.
abbrev run : Bytes → ParserState → ℕ → Bytes → Marks → Exec (Outcome Marks)
run block st p rest m = scan (request_step block) (length rest) p rest st m

abbrev after_method : Method → Marks
after_method method =
    let k = length (method_name method) in
    record no_marks {
      method_n = method;
      request_line_start = some 0;
      method_start = some 0;
      method_end = some k;
      uri_start = some (k + 1);
      path_start = some (k + 1);
      pathname_start = some (k + 1);
    }

-- From the start of the line past the first slash of the target.
run-method :
    (method : Method) (t : Bytes)
    → let line = method_name method ++ (b' ' ∷ b'/' ∷ t) in
      run line rl_start 0 line no_marks
      ≡ run line rl_path (length (method_name method) + 2) t (after_method method)
unfolding request_step scan method_of
run-method get t = refl
run-method head t = refl
run-method post t = refl
run-method put t = refl
run-method delete t = refl
run-method options t = refl
run-method trace t = refl
run-method connect t = refl

-- The marks that the space behind the target sets.
abbrev ended : ℕ → Marks → Marks
ended q m = record m { path_end = some q; pathname_end = some q; uri_end = some q }

run-pathname :
    (block t rest : Bytes) (p q : ℕ) (m : Marks)
    → AllTrue is_target_char t
    → p + length t ≡ q
    → run block rl_pathname p (t ++ (b' ' ∷ rest)) m
      ≡ run block rl_version_start (q + 1) rest (ended q m)
unfolding request_step scan
run-pathname block [] rest p q m h e = let e' : p ≡ q = omega arith in rw e'
run-pathname block (c ∷ t) rest p q m h e =
    ground (arith, run-pathname block t rest (p + 1) q m h.1 (omega arith))

run-path :
    (block t rest : Bytes) (p q : ℕ) (m : Marks)
    → AllTrue is_target_char t
    → p + length t ≡ q
    → run block rl_path p (t ++ (b' ' ∷ rest)) m
      ≡ run block rl_version_start (q + 1) rest (ended q m)
unfolding request_step scan
run-path block [] rest p q m h e = let e' : p ≡ q = omega arith in rw e'
run-path block (c ∷ t) rest p q m h e = ground (
  arith,
  run-path block t rest (p + 1) q m h.1 (omega arith),
  run-pathname block t rest (p + 1) q (record m { pathname_end = some p }) h.1 (omega arith),
)

run-version :
    (block rest : Bytes) (p q a b minor next : ℕ) (crlf : Bool) (m : Marks)
    → (minor == b'0' || minor == b'1') ≡ true
    → m.request_line_end ≡ none
    → p + 5 ≡ a
    → p + 7 ≡ b
    → p + 8 + length (line_end crlf) ≡ q
    → run block rl_version_start p (codes "HTTP/1." ++ (minor ∷ (line_end crlf ++ (next ∷ rest)))) m
      ≡ done (
          stopped ok q
            (record m { http_major = some a; http_minor = some b; request_line_end = some q }))
unfolding request_step scan
run-version block rest p q a b minor next true m h n ea eb e = ground arith
run-version block rest p q a b minor next false m h n ea eb e = ground arith

-- What is marked in a line, with `q` the offset of the space behind the target and `e` the end.
abbrev pub marks_of : Method → (q e : ℕ) → Marks
marks_of method q e = record (after_method method) {
  uri_end = some q;
  path_end = some q;
  pathname_end = some q;
  http_major = some (q + 6);
  http_minor = some (q + 8);
  request_line_end = some e;
}

-- The parser accepts every request line in origin form, of each method, whatever the target holds
-- but spaces and line ends, with minor version 0 or 1, ended by CR LF or by LF, if at least one
-- more character follows. It marks exactly the method, the target (as URI, as path and as
-- pathname, the query included), the version, and the line with its end, and stops behind the line.
pub parse_request_line-request_line :
    (method : Method) (target rest : Bytes) (minor next : ℕ) (crlf : Bool)
    → AllTrue is_target_char target
    → (minor == b'0' || minor == b'1') ≡ true
    → let block = request_line method target minor crlf (next ∷ rest) in
      let q = length (method_name method) + 2 + length target in
      let e = q + 9 + length (line_end crlf) in
      parse_request_line block (length block) 0 rl_start no_marks
      ≡ done (record { code = ok; state = h_start; pos = e; marks = marks_of method q e })
unfolding parse_request_line
parse_request_line-request_line method target rest minor next crlf h d =
    ap (λ r. r >>= λ o. done (conclude rl_start 0 o))
      (run-method method _
        ∙ run-path _ target _ (length (method_name method) + 2) q (after_method method) h refl
        ∙ run-version _ rest (q + 1) e (q + 6) (q + 8) minor next crlf
            (ended q (after_method method)) d refl (omega arith) (omega arith) (omega arith))
  where
    q : ℕ
    q = length (method_name method) + 2 + length target

    e : ℕ
    e = q + 9 + length (line_end crlf)
