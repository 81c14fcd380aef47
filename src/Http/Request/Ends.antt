-- ===== src/Http/Request/Ends.antt =====
-- src/http/xps_http_req.c: the loop of `http_process_headers` comes to an end.
use nw_lab.Buffer.{Buffer}
use nw_lab.Http.HeaderLine.{parse_header_line}
use nw_lab.Http.Request.{
  HttpReq, push_header, Next, leave, repeat, after_line, headers_round, headers_loop,
  process_headers,
}
use nw_lab.Http.State.{h_start}
use nw_lab.Prelude.{
  ℕ, zero, suc, ◌+◌, ◌≤◌, ◌<◌, ◌≡◌, ◌≢◌, refl, sym, ap, ◌∙◌, Bool, true, false, Bytes, [], Option,
  none, some, Exec, done, Mallocs, >>=-eq-done, done_eq, some-none, length, arith, Bool-cases, inl,
  inr,
}
use nw_lab.Utils.{str_from_ptrs}
use nw_lab.Status.{Code, ok, e_fail, e_again, e_next, e_notfound, e_permission, e_eof}
use nw_lab.Http.HeaderLine.Stops.{parse_header_line-next}

-- Neither leaving with a code nor the last line is going on.
left : (c : Code) (req : HttpReq) (r : Next × HttpReq) → done (leave c, req) ≡ done r → r.0 ≢ repeat
left c req r e = λ go_on. let n : leave c ≡ repeat = ap (λ x. x.0) (done_eq e) ∙ go_on in cc

ended : (b : Bool) → (elim b [ true ↦ leave ok | false ↦ leave e_fail ]) ≢ repeat
ended true = λ e. cc
ended false = λ e. cc

push_header-state :
    (given : Mallocs) (block : Bytes) (req : HttpReq) (r : Bool × HttpReq)
    → push_header given block req ≡ done r
    → r.1.parser_state ≡ req.parser_state
unfolding push_header
push_header-state given block req r e = elim (Bool-cases (given 0)) [
  | inr refused ↦
      let same : done (false, record req { headers = [] }) ≡ done r =
        (rw (refused, push_header) at e) in
      let pair : (false, record req { headers = [] }) ≡ r = cc in
      sym (ap (λ x. x.1.parser_state) pair)
  | inl made ↦
      let m = req.header_marks in
      let (key, _, rest) =
        >>=-eq-done (str_from_ptrs (given 1) block m.header_key_start m.header_key_end) _
          (rw (made, push_header) at e) in
      let (val, _, last) =
        >>=-eq-done (str_from_ptrs (given 2) block m.header_val_start m.header_val_end) _ rest in
      sym (ap (λ x. x.1.parser_state) (done_eq last))
]

-- Only a line that another follows makes the loop go on.
after_line-repeat :
    (given : Mallocs) (block : Bytes) (c : Code) (req : HttpReq) (r : Next × HttpReq)
    → after_line given block c req ≡ done r
    → r.0 ≡ repeat
    → (c ≡ e_next) × (r.1.parser_state ≡ req.parser_state)
unfolding after_line
after_line-repeat given block e_fail req r e go_on = absurd (left e_fail req r e go_on)
after_line-repeat given block e_again req r e go_on = absurd (left ok req r e go_on)
after_line-repeat given block e_notfound req r e go_on = absurd (left ok req r e go_on)
after_line-repeat given block e_permission req r e go_on = absurd (left ok req r e go_on)
after_line-repeat given block e_eof req r e go_on = absurd (left ok req r e go_on)
after_line-repeat given block ok req r e go_on =
    let (p, run, last) = >>=-eq-done (push_header given block req) _ e in
    absurd (ended p.0 (ap (λ x. x.0) (done_eq last) ∙ go_on))
after_line-repeat given block e_next req r e go_on =
    let (p, run, last) = >>=-eq-done (push_header given block req) _ e in
    (
      refl,
      sym (ap (λ x. x.1.parser_state) (done_eq last)) ∙ push_header-state given block req p run,
    )

headers_round-repeat :
    (given : Mallocs) (req : HttpReq) (buff : Buffer) (r : Next × HttpReq × Buffer)
    → headers_round given req buff ≡ done r
    → r.0 ≡ repeat
    → req.parser_state ≡ h_start
    → (buff.pos < r.2.pos)
      × (r.2.pos < length buff.data_block)
      × (r.1.parser_state ≡ h_start)
      × (r.2.data_block ≡ buff.data_block)
unfolding headers_round
headers_round-repeat given req buff r e go_on start =
    let (l, parsed, rest) =
      >>=-eq-done
        (parse_header_line buff.data_block buff.len buff.pos req.parser_state req.header_marks) _
        e in
    let (n, after, last) =
      >>=-eq-done
        (after_line given buff.data_block l.code
          (record req { parser_state = l.state; header_marks = l.marks }))
        _ rest in
    let same = done_eq last in
    let (code, state) =
      after_line-repeat given buff.data_block l.code
        (record req { parser_state = l.state; header_marks = l.marks }) n after
        (ap (λ x. x.0) same ∙ go_on) in
    let (lt, inside, fresh) =
      parse_header_line-next buff.data_block buff.len buff.pos req.header_marks l
        (ap (λ st. parse_header_line buff.data_block buff.len buff.pos st req.header_marks)
            (sym start)
          ∙ parsed)
        code in
    let pos : l.pos ≡ r.2.pos = ap (λ x. x.2.pos) same in
    (
      omega arith,
      omega arith,
      sym (ap (λ x. x.1.parser_state) same) ∙ state ∙ fresh,
      sym (ap (λ x. x.2.data_block) same),
    )

headers_loop-ends :
    (given : ℕ → Mallocs) (fuel i : ℕ) (req : HttpReq) (buff : Buffer)
    → req.parser_state ≡ h_start
    → buff.pos ≤ length buff.data_block
    → length buff.data_block < fuel + buff.pos
    → headers_loop given fuel i req buff ≢ done none
unfolding headers_loop
headers_loop-ends given zero i req buff start inside enough = absurd (omega arith)
headers_loop-ends given (suc fuel) i req buff start inside enough = λ e.
    let (r, run, rest) = >>=-eq-done (headers_round (given i) req buff) _ e in
    next (headers_loop-ends given fuel (i + 1)) r run r.0 refl rest
  where
    next :
        ((req' : HttpReq) (buff' : Buffer)
          → req'.parser_state ≡ h_start
          → buff'.pos ≤ length buff'.data_block
          → length buff'.data_block < fuel + buff'.pos
          → headers_loop given fuel (i + 1) req' buff' ≢ done none)
        → (r : Next × HttpReq × Buffer) → headers_round (given i) req buff ≡ done r
        → (n : Next) → r.0 ≡ n
        → ◌≡◌ {A = Exec (Option (Code × HttpReq × Buffer))}
            (elim n [
              | leave c ↦ done (some (c, r.1, r.2))
              | repeat ↦ headers_loop given fuel (i + 1) r.1 r.2
            ])
            (done none)
        → ⊥
    next later r run (leave c) e rest = some-none (done_eq rest)
    next later r run repeat e rest =
        let (lt, less, fresh, same) = headers_round-repeat (given i) req buff r run e start in
        let long : length r.2.data_block ≡ length buff.data_block = ap length same in
        later r.1 r.2 fresh (omega arith) (omega arith) rest

-- From the start of a header line, at a position within the block, the loop over the header lines
-- never runs out of its fuel, the length of the block and one, whatever the block holds and whatever
-- the allocations answer: every line that another follows moves the position on within the block.
pub process_headers-ends :
    (given : ℕ → Mallocs) (req : HttpReq) (buff : Buffer)
    → req.parser_state ≡ h_start
    → buff.pos ≤ length buff.data_block
    → process_headers given req buff ≢ done none
unfolding process_headers
process_headers-ends given req buff start inside =
    headers_loop-ends given (length buff.data_block + 1) 0 (record req { headers = [] }) buff start
      inside (omega arith)
