-- ===== src/Http/HeaderLine/Stops.antt =====
-- src/http/xps_http.c: how far a header line that is read moves the position.
use nw_lab.Http.HeaderLine.{parse_header_line, header_step, is_letter}
use nw_lab.Http.Scan.{
  Step, refuse, go, stop, broken, Outcome, again, failed, stopped, scan, Parse, conclude,
}
use nw_lab.Http.State.{ParserState, HeaderMarks, h_start}
use nw_lab.Prelude.{
  ℕ, zero, suc, ◌+◌, ◌≤◌, ◌<◌, ◌≡◌, refl, sym, ap, Bytes, [], ◌∷◌, done, fault, >>=-eq-done, length,
  drop, length-drop, arith, Bool-cases, inl, inr,
}
use nw_lab.Status.{Code, e_fail, e_again, e_next}

-- A scan stops within the characters that are left.
scan-stopped :
    {M : Type 0} (step : ParserState → ℕ → ℕ → M → Step M) (n p : ℕ) (rest : Bytes)
    (st : ParserState) (m : M) {c : Code} {q : ℕ} {m' : M}
    → scan step n p rest st m ≡ done (stopped c q m')
    → (p ≤ q) × (q < p + length rest)
unfolding scan
scan-stopped step zero p rest st m e = cc
scan-stopped step (suc n) p [] st m e = cc
scan-stopped step (suc n) p (ch ∷ rest) st m {c} {q} {m'} e =
    go_on (λ st' m1. scan-stopped step n (p + 1) rest st' m1) (step st p ch m) refl e
  where
    go_on :
        ((st' : ParserState) (m1 : _)
          → scan step n (p + 1) rest st' m1 ≡ done (stopped c q m')
          → (p + 1 ≤ q) × (q < p + 1 + length rest))
        → (s : Step _) → step st p ch m ≡ s
        → scan step (suc n) p (ch ∷ rest) st m ≡ done (stopped c q m')
        → (p ≤ q) × (q < p + suc (length rest))
    go_on later refuse s e =
        let no : done (failed m) ≡ done (stopped c q m') = rw (s, scan) at e in cc
    go_on later (stop c' m1) s e =
        let at_p : done (stopped c' p m1) ≡ done (stopped c q m') = rw (s, scan) at e in
        let same : p ≡ q = cc in (omega arith, omega arith)
    go_on later broken s e = let no : fault ≡ done (stopped c q m') = rw (s, scan) at e in cc
    go_on later (go st' m1) s e =
        let (le, lt) = later st' m1 (rw (s, scan) at e) in (omega arith, omega arith)

-- From the start of a line, it stops behind the first character.
start-stopped :
    (n p : ℕ) (rest : Bytes) (m : HeaderMarks) {c : Code} {q : ℕ} {m' : HeaderMarks}
    → scan header_step n p rest h_start m ≡ done (stopped c q m')
    → (p < q) × (q < p + length rest)
unfolding scan header_step
start-stopped zero p rest m e = cc
start-stopped (suc n) p [] m e = cc
start-stopped (suc n) p (ch ∷ rest) m {c} {q} {m'} e = elim (Bool-cases (is_letter ch)) [
  | inl letter ↦
      let (le, lt) = scan-stopped header_step n (p + 1) rest _ _ (rw (letter, scan) at e) in
      (omega arith, omega arith)
  | inr other ↦ let no : done (failed m) ≡ done (stopped c q m') = rw (other, scan) at e in cc
]

-- A line that another follows moves the position, within the block.
pub parse_header_line-next :
    (block : Bytes) (len pos : ℕ) (m : HeaderMarks) (r : Parse HeaderMarks)
    → parse_header_line block len pos h_start m ≡ done r
    → r.code ≡ e_next
    → (pos < r.pos) × (r.pos < length block) × (r.state ≡ h_start)
unfolding parse_header_line
parse_header_line-next block len pos m r e next =
    let (o, run, last) = >>=-eq-done (scan header_step len pos (drop pos block) h_start m) _ e in
    by_outcome o run last
  where
    by_outcome :
        (o : Outcome HeaderMarks)
        → scan header_step len pos (drop pos block) h_start m ≡ done o
        → done (conclude h_start pos o) ≡ done r
        → (pos < r.pos) × (r.pos < length block) × (r.state ≡ h_start)
    by_outcome (again st' m') run last =
        let same : conclude h_start pos (again st' m') ≡ r = cc in
        let code : e_again ≡ r.code = ap (λ x. x.code) same in cc
    by_outcome (failed m') run last =
        let same : conclude h_start pos (failed m') ≡ r = cc in
        let code : e_fail ≡ r.code = ap (λ x. x.code) same in cc
    by_outcome (stopped c q m') run last =
        let (lt, inside) = start-stopped len pos (drop pos block) m run in
        let same : conclude h_start pos (stopped c q m') ≡ r = cc in
        let at : q ≡ r.pos = ap (λ x. x.pos) same in
        (omega arith, omega (arith, length-drop pos block), sym (ap (λ x. x.state) same))
