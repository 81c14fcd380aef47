-- ===== src/Http/RequestLine/Spans.antt =====
-- What the request-line parser has marked when it accepts: each pair of pointers that
-- `http_process_request_line` hands to `str_from_ptrs` is in order and inside the block.
pub mod Invariant
mod Steps
use nw_lab.Http.RequestLine.{
  request_step, start_step, method_step, target_step, schema_step, schema_slash_step,
  schema_slash_slash_step, host_step, port_step, path_step, pathname_step, version_step,
  parse_request_line, method_of,
}
use nw_lab.Http.Scan.{Step, refuse, go, stop, broken, Parse}
use nw_lab.Http.Scan.Safety.{After, parse_with-Leaves, Leaves}
use nw_lab.Http.State.{
  ParserState, Marks, h_start, rl_start, no_marks, rl_method, rl_sp_after_method, rl_schema,
  rl_schema_slash, rl_schema_slash_slash, rl_host, rl_port, rl_path, rl_pathname, rl_version_start,
  rl_version_h, rl_version_ht, rl_version_htt, rl_version_http, rl_version_http_slash,
  rl_version_major, rl_version_dot, rl_version_minor, rl_cr, rl_lf,
}
use nw_lab.Prelude.{
  ℕ, zero, suc, ◌+◌, ◌≤◌, ◌<◌, ◌≡◌, refl, Bytes, List, [], ◌∷◌, Option, none, some, done, fault,
  arith, Bool, true, false, if◌then◌else◌, not, ◌||◌, ◌==◌, length, ◌⊎◌, inl, inr,
}
use nw_lab.Status.{Code, ok, e_again, e_fail}
use Invariant.{Accepted, Inv, Good, InStart}
use Steps.{request_step-Inv}

-- It fails or wants more with the position unmoved, or accepts.
abbrev pub Answer : (len pos : ℕ) → Parse Marks → Type 0
Answer len pos r =
    ((r.code ≡ e_again) × (r.pos ≡ pos))
    ⊎ ((r.code ≡ e_fail) × (r.pos ≡ pos))
    ⊎ ((r.code ≡ ok)
        × Accepted r.pos r.marks
        × (pos ≤ r.pos)
        × (r.pos < pos + len)
        × (r.state ≡ h_start))

-- On a buffer whose `len` characters from `pos` on lie in its block, the request-line parser, on a
-- fresh request, returns with no read outside the block and no arithmetic on NULL. It fails or
-- wants more with the buffer's position unmoved, or it accepts: then the position is one of the
-- `len` characters, and every pair of pointers that is later cut out of the block is in order and
-- before that position, the request line, the method, the URI and the version being set.
pub parse_request_line-safe :
    (block : Bytes) (len pos : ℕ)
    → pos + len ≤ length block
    → (r : Parse Marks) × (parse_request_line block len pos rl_start no_marks ≡ done r)
      × Answer len pos r
unfolding parse_request_line
parse_request_line-safe block len pos h = by_leaves (
    parse_with-Leaves (request_step block) Inv Good (request_step-Inv block) len pos block rl_start
      no_marks fresh (omega arith))
  where
    fresh : InStart no_marks
    fresh = ground arith

    cases :
        (r : Parse Marks)
        → Leaves (request_step block) Inv Good pos len (length block) r
        → Answer len pos r
    cases r (inl (c, p, _, _)) = inl (c, p)
    cases r (inr (inl h)) = inr (inl h)
    cases r (inr (inr (g, a, b, _, s))) = inr (inr (g.0, g.1, a, b, s))

    by_leaves :
        ((parse_request_line block len pos rl_start no_marks ≡ fault) × (length block < pos + len))
          ⊎ ((r : Parse Marks) × (parse_request_line block len pos rl_start no_marks ≡ done r)
              × Leaves (request_step block) Inv Good pos len (length block) r)
        → (r : Parse Marks) × (parse_request_line block len pos rl_start no_marks ≡ done r)
          × Answer len pos r
    by_leaves (inl (_, l)) = absurd (omega arith)
    by_leaves (inr (r, run, leaves)) = (r, run, cases r leaves)
