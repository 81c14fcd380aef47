-- ===== src/Http/HeaderLine/Accepts.antt =====
-- The header lines that the parser is sure to accept, and what it marks in them.
use nw_lab.Http.HeaderLine.{header_step, is_letter}
use nw_lab.Http.Scan.{scan, Outcome, stopped}
use nw_lab.Http.State.{ParserState, HeaderMarks, h_start, h_name, h_val, h_lf}
use nw_lab.Prelude.{
  ℕ, suc, ◌+◌, ◌≡◌, ◌∙◌, Bool, true, false, ◌||◌, not, Bytes, [], ◌∷◌, ◌++◌, some, Exec, done, ◌==◌,
  length, arith,
}
use nw_lab.Status.{ok, e_next}

abbrev pub is_key_char : ℕ → Bool
is_key_char c = is_letter c || c == b'-'

-- No end of line, no NUL.
abbrev pub is_val_char : ℕ → Bool
is_val_char c = not (c == b'\r' || c == b'\n' || c == 0)

abbrev pub AllTrue : (ℕ → Bool) → Bytes → Type 0
AllTrue p [] = Unit {0}
AllTrue p (c ∷ cs) = (p c ≡ true) × AllTrue p cs

-- A letter, then letters and dashes.
abbrev pub IsKey : Bytes → Type 0
IsKey [] = ⊥
IsKey (c ∷ cs) = (is_letter c ≡ true) × AllTrue is_key_char cs

-- Not empty, with no space in front, on one line.
abbrev pub IsVal : Bytes → Type 0
IsVal [] = ⊥
IsVal (c ∷ cs) = ((c == b' ') ≡ false) × (is_val_char c ≡ true) × AllTrue is_val_char cs

abbrev run : ParserState → ℕ → Bytes → HeaderMarks → Exec (Outcome HeaderMarks)
run st p rest m = scan header_step (length rest) p rest st m

run-key_chars :
    (ks rest : Bytes) (p q : ℕ) (m : HeaderMarks)
    → AllTrue is_key_char ks
    → p + length ks ≡ q
    → run h_name p (ks ++ rest) m ≡ run h_name q rest m
unfolding header_step scan
run-key_chars [] rest p q m h e = let e' : p ≡ q = omega arith in rw e'
run-key_chars (c ∷ ks) rest p q m h e =
    ground (arith, run-key_chars ks rest (p + 1) q m h.1 (omega arith))

run-val_chars :
    (vs rest : Bytes) (p q : ℕ) (m : HeaderMarks)
    → AllTrue is_val_char vs
    → p + length vs ≡ q
    → run h_val p (vs ++ rest) m ≡ run h_val q rest m
unfolding header_step scan
run-val_chars [] rest p q m h e = let e' : p ≡ q = omega arith in rw e'
run-val_chars (c ∷ vs) rest p q m h e =
    ground (arith, run-val_chars vs rest (p + 1) q m h.1 (omega arith))

-- Where the parts of a header line stand that begins at `p`.
abbrev pub line_marks : (p : ℕ) (k v : Bytes) → HeaderMarks
line_marks p k v = record {
  header_key_start = some p;
  header_key_end = some (p + length k);
  header_val_start = some (p + length k + 2);
  header_val_end = some (p + length k + 2 + length v);
}

-- From the colon to the end of the line, CR LF included.
run-line :
    (k v rest : Bytes) (p : ℕ) (m : HeaderMarks)
    → IsKey k
    → IsVal v
    → run h_start p (k ++ (b':' ∷ b' ' ∷ (v ++ (b'\r' ∷ b'\n' ∷ rest)))) m
      ≡ run h_lf (p + length k + 2 + length v + 2) rest (line_marks p k v)
unfolding header_step scan
run-line [] v rest p m k h = absurd k
run-line (c ∷ ks) [] rest p m k h = absurd h
run-line (c ∷ ks) (d ∷ vs) rest p m k h =
    let q = p + suc (length ks) in
    let in_key = record m { header_key_start = some p } in
    let in_val = record in_key { header_key_end = some q; header_val_start = some (q + 2) } in
    ground (
      arith,
      run-key_chars ks (b':' ∷ b' ' ∷ ((d ∷ vs) ++ (b'\r' ∷ b'\n' ∷ rest))) (p + 1) q in_key k.1
          (omega arith),
      run-val_chars vs (b'\r' ∷ b'\n' ∷ rest) (q + 3) (q + 2 + suc (length vs)) in_val h.2
          (omega arith),
    )

-- A header line that another one follows: `next` is that one's first character.
pub header_line-next :
    (k v rest : Bytes) (next p : ℕ) (m : HeaderMarks)
    → IsKey k
    → IsVal v
    → is_letter next ≡ true
    → run h_start p (k ++ (b':' ∷ b' ' ∷ (v ++ (b'\r' ∷ b'\n' ∷ next ∷ rest)))) m
      ≡ done (stopped e_next (p + length k + 2 + length v + 2) (line_marks p k v))
header_line-next k v rest next p m h j n = run-line k v (next ∷ rest) p m h j ∙ after
  where
    after :
        run h_lf (p + length k + 2 + length v + 2) (next ∷ rest) (line_marks p k v)
        ≡ done (stopped e_next (p + length k + 2 + length v + 2) (line_marks p k v))
    after = unfold header_step scan is_letter in ground arith

-- The last header line, with the empty line behind it: the parser stops at the last LF.
pub header_line-last :
    (k v rest : Bytes) (p : ℕ) (m : HeaderMarks)
    → IsKey k
    → IsVal v
    → run h_start p (k ++ (b':' ∷ b' ' ∷ (v ++ (b'\r' ∷ b'\n' ∷ b'\r' ∷ b'\n' ∷ rest)))) m
      ≡ done (stopped ok (p + length k + 2 + length v + 3) (line_marks p k v))
header_line-last k v rest p m h j = run-line k v (b'\r' ∷ b'\n' ∷ rest) p m h j ∙ after
  where
    after :
        run h_lf (p + length k + 2 + length v + 2) (b'\r' ∷ b'\n' ∷ rest) (line_marks p k v)
        ≡ done (stopped ok (p + length k + 2 + length v + 3) (line_marks p k v))
    after = unfold header_step scan in ground arith
