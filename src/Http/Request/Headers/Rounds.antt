-- ===== src/Http/Request/Headers/Rounds.antt =====
-- src/http/xps_http_req.c: one round of the loop of `http_process_headers`, on a header line that the parser reads.
use nw_lab.Buffer.{Buffer}
use nw_lab.Http.HeaderLine.{parse_header_line, header_step, is_letter}
use nw_lab.Http.HeaderLine.Accepts.{is_key_char, is_val_char, AllTrue, IsKey, IsVal, line_marks}
use nw_lab.Http.Headers.{key_val}
use nw_lab.Http.Headers.Serialize.{header_text}
use nw_lab.Http.Request.{HttpReq, push_header, leave, repeat, after_line, headers_round}
use nw_lab.Http.Scan.{scan, stopped}
use nw_lab.Http.Scan.More.{scan_more}
use nw_lab.Http.State.{h_start}
use nw_lab.Memory.{drop-append_all}
use nw_lab.Prelude.{
  ℕ, ◌+◌, ◌≤◌, ◌≡◌, refl, ◌∙◌, true, Bytes, List, [], ◌∷◌, ◌++◌, some, done, Mallocs, length, drop,
  arith, append_assoc, length-append,
}
use nw_lab.Status.{Code, ok, e_next}
use nw_lab.Text.{NoNul}
use nw_lab.Utils.{str_from_ptrs}
use nw_lab.Utils.Slices.{str_from_ptrs_at}

-- Headers that the parser reads: letters and dashes, and a value on one line.
abbrev pub AllHeaders : List (Bytes × Bytes) → Type 0
AllHeaders [] = Unit {0}
AllHeaders ((k, v) ∷ hs) = IsKey k × IsVal v × AllHeaders hs

-- A header line in front of `more`, and a header section with its empty line.
abbrev pub line_then : Bytes → Bytes → Bytes → Bytes
line_then k v more = k ++ (b':' ∷ b' ' ∷ (v ++ (b'\r' ∷ b'\n' ∷ more)))

abbrev pub headers_then : List (Bytes × Bytes) → Bytes → Bytes
headers_then [] more = b'\r' ∷ b'\n' ∷ more
headers_then ((k, v) ∷ hs) more = line_then k v (headers_then hs more)

pub header_text-then :
    (hs : List (Bytes × Bytes)) (more : Bytes)
    → header_text hs ++ (b'\r' ∷ b'\n' ∷ more) ≡ headers_then hs more
header_text-then [] more = refl
header_text-then ((k, v) ∷ hs) more = simp append_assoc (rw (header_text-then hs more))

key_chars-NoNul : (ks : Bytes) → AllTrue is_key_char ks → NoNul ks
unfolding is_letter
key_chars-NoNul [] h = tt
key_chars-NoNul (c ∷ ks) h = (ground arith, key_chars-NoNul ks h.1)

IsKey-NoNul : (k : Bytes) → IsKey k → NoNul k
unfolding is_letter
IsKey-NoNul [] h = absurd h
IsKey-NoNul (c ∷ ks) h = (ground arith, key_chars-NoNul ks h.1)

val_chars-NoNul : (vs : Bytes) → AllTrue is_val_char vs → NoNul vs
val_chars-NoNul [] h = tt
val_chars-NoNul (c ∷ vs) h = (ground arith, val_chars-NoNul vs h.1)

IsVal-NoNul : (v : Bytes) → IsVal v → NoNul v
IsVal-NoNul [] h = absurd h
IsVal-NoNul (c ∷ vs) h = (ground arith, val_chars-NoNul vs h.2)

module _ (given : Mallocs) (block pre k v more : Bytes) (p : ℕ)
    (all_given : (n : ℕ) → given n ≡ true) (is : block ≡ pre ++ line_then k v more)
    (at : p ≡ length pre) (key : IsKey k) (val : IsVal v) where
  cut_key : str_from_ptrs (given 1) block (some p) (some (p + length k)) ≡ done (some k)
  cut_key =
      str_from_ptrs_at (given 1) block pre k _ p (p + length k) (all_given 1) is (IsKey-NoNul k key)
        at refl

  cut_val :
      str_from_ptrs (given 2) block (some (p + length k + 2)) (some (p + length k + 2 + length v))
      ≡ done (some v)
  cut_val =
      str_from_ptrs_at (given 2) block (pre ++ (k ++ (b':' ∷ b' ' ∷ []))) v (b'\r' ∷ b'\n' ∷ more)
        (p + length k + 2) (p + length k + 2 + length v) (all_given 2) (is ∙ simp append_assoc)
        (IsVal-NoNul v val)
        (omega
          (arith, length-append pre (k ++ (b':' ∷ b' ' ∷ [])), length-append k (b':' ∷ b' ' ∷ [])))
        refl

  push_header_lem :
      (req : HttpReq)
      → req.header_marks ≡ line_marks p k v
      → push_header given block req
        ≡ done (true, record req { headers = req.headers ++ (key_val k v ∷ []) })
  unfolding push_header
  push_header_lem req m =
      rw (all_given 0, push_header) (rw (m) (rw cut_key (rw cut_val (rw (all_given 3)))))

-- The request behind one more header.
abbrev pub with_header : (p : ℕ) (k v : Bytes) → HttpReq → HttpReq
with_header p k v req = record req {
  parser_state = h_start;
  header_marks = line_marks p k v;
  headers = req.headers ++ (key_val k v ∷ []);
}

-- One round of the loop, where the parser stops with `c` at `q` on this header.
module _ (given : Mallocs) (pre k v more : Bytes) (p : ℕ) (req : HttpReq) (buff : Buffer)
    (all_given : (n : ℕ) → given n ≡ true) (is : buff.data_block ≡ pre ++ line_then k v more)
    (at : p ≡ length pre) (key : IsKey k) (val : IsVal v) (begins : req.parser_state ≡ h_start)
    (here : buff.pos ≡ p) (enough : length (line_then k v more) ≤ buff.len) where
  parse_lem :
      (c : Code) (q : ℕ)
      → scan header_step
          (length (line_then k v more))
          p
          (line_then k v more)
          h_start
          req.header_marks
        ≡ done (stopped c q (line_marks p k v))
      → parse_header_line buff.data_block buff.len buff.pos req.parser_state req.header_marks
        ≡ done (record { code = c; state = h_start; pos = q; marks = line_marks p k v })
  unfolding parse_header_line
  parse_lem c q run =
      let dropped : drop p buff.data_block ≡ line_then k v more =
        rw (is, at) (drop-append_all pre (line_then k v more)) in
      let longer = scan_more header_step _ buff.len p _ h_start req.header_marks enough run in
      rw (begins, here) (rw dropped (rw longer))

  pub round_next :
      (q : ℕ)
      → scan header_step
          (length (line_then k v more))
          p
          (line_then k v more)
          h_start
          req.header_marks
        ≡ done (stopped e_next q (line_marks p k v))
      → headers_round given req buff ≡ done (repeat, with_header p k v req, record buff { pos = q })
  unfolding headers_round after_line
  round_next q run = rw (parse_lem e_next q run) (
      rw (
        push_header_lem given buff.data_block pre k v more p all_given is at key val
          (record req { parser_state = h_start; header_marks = line_marks p k v }) refl))

  pub round_last :
      (q : ℕ)
      → scan header_step
          (length (line_then k v more))
          p
          (line_then k v more)
          h_start
          req.header_marks
        ≡ done (stopped ok q (line_marks p k v))
      → headers_round given req buff
        ≡ done (leave ok, with_header p k v req, record buff { pos = q })
  unfolding headers_round after_line
  round_last q run = rw (parse_lem ok q run) (
      rw (
        push_header_lem given buff.data_block pre k v more p all_given is at key val
          (record req { parser_state = h_start; header_marks = line_marks p k v }) refl))

-- The offset of the last LF of a header section that begins at `p`.
abbrev pub section_end : ℕ → List (Bytes × Bytes) → ℕ
section_end p hs = p + length (header_text hs) + 1

pub length-header_text :
    (hs : List (Bytes × Bytes)) (more : Bytes)
    → length (headers_then hs more) ≡ length (header_text hs) + 2 + length more
length-header_text hs more =
    rw (← header_text-then hs more)
      (omega (arith, length-append (header_text hs) (b'\r' ∷ b'\n' ∷ more)))

-- The headers that follow one: none, or a line that begins with a letter.
pub headers_then-next :
    (k v : Bytes) (hs : List (Bytes × Bytes)) (more : Bytes)
    → IsKey k
    → (next : ℕ) × (later : Bytes) × (is_letter next ≡ true)
      × (headers_then ((k, v) ∷ hs) more ≡ next ∷ later)
headers_then-next [] v hs more h = absurd h
headers_then-next (c ∷ ks) v hs more h = (c, _, h.0, refl)

pub line_length :
    (k v more : Bytes) → length (line_then k v more) ≡ length k + length v + 4 + length more
line_length k v more = omega (
  arith,
  length-append k (b':' ∷ b' ' ∷ (v ++ (b'\r' ∷ b'\n' ∷ more))),
  length-append v (b'\r' ∷ b'\n' ∷ more),
)
