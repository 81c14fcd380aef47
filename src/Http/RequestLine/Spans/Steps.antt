-- ===== src/Http/RequestLine/Spans/Steps.antt =====
-- Every step of the request-line parser keeps what is known of its state.
use nw_lab.Http.RequestLine.{
  request_step, start_step, method_step, target_step, schema_step, schema_slash_step,
  schema_slash_slash_step, host_step, port_step, path_step, pathname_step, version_step,
}
use nw_lab.Http.Scan.{Step, refuse, go}
use nw_lab.Http.State.{
  ParserState, Marks, rl_start, rl_method, rl_sp_after_method, rl_schema, rl_schema_slash,
  rl_schema_slash_slash, rl_host, rl_port, rl_path, rl_pathname, rl_version_start, rl_version_h,
  rl_version_ht, rl_version_htt, rl_version_http, rl_version_http_slash, rl_version_major,
  rl_version_dot, rl_version_minor, rl_cr, rl_lf,
}
use nw_lab.Prelude.{
  ℕ, ◌+◌, refl, Bytes, Option, none, some, arith, Bool, true, false, if◌then◌else◌, not, ◌||◌, ◌==◌,
}
use nw_lab.Http.RequestLine.Spans.Invariant.{
  At, Span, SpanIfSet, Sane, InStart, InMethod, BeforeTarget, InSchema, InHost, InPort, InPath,
  InVersion, Version, Inv, Keeps,
}

start_step-Inv : (p ch : ℕ) (m : Marks) → InStart m → Keeps p (start_step p ch m)
unfolding start_step
start_step-Inv p ch m v = ground arith

method_step-Inv :
    (block : Bytes) (p ch : ℕ) (m : Marks) → InMethod p m → Keeps p (method_step block p ch m)
unfolding method_step
method_step-Inv block p ch m v = ground arith

target_step-Inv : (p ch : ℕ) (m : Marks) → BeforeTarget p m → Keeps p (target_step p ch m)
unfolding target_step
target_step-Inv p ch m v = ground arith

schema_step-Inv : (p ch : ℕ) (m : Marks) → InSchema p m → Keeps p (schema_step p ch m)
unfolding schema_step
schema_step-Inv p ch m v = ground arith

schema_slash_step-Inv : (p ch : ℕ) (m : Marks) → InSchema p m → Keeps p (schema_slash_step ch m)
unfolding schema_slash_step
schema_slash_step-Inv p ch m v = ground arith

schema_slash_slash_step-Inv :
    (p ch : ℕ) (m : Marks) → InSchema p m → Keeps p (schema_slash_slash_step p ch m)
unfolding schema_slash_slash_step
schema_slash_slash_step-Inv p ch m v = ground arith

host_step-Inv : (p ch : ℕ) (m : Marks) → InHost p m → Keeps p (host_step p ch m)
unfolding host_step
host_step-Inv p ch m v = ground arith

port_step-Inv : (p ch : ℕ) (m : Marks) → InPort p m → Keeps p (port_step p ch m)
unfolding port_step
port_step-Inv p ch m v = ground arith

path_step-Inv : (p ch : ℕ) (m : Marks) → InPath p m → Keeps p (path_step p ch m)
unfolding path_step
path_step-Inv p ch m v = ground arith

pathname_step-Inv : (p ch : ℕ) (m : Marks) → InPath p m → Keeps p (pathname_step p ch m)
unfolding pathname_step
pathname_step-Inv p ch m v = ground arith

SpanIfSet-suc : (a b : Option ℕ) (p : ℕ) → SpanIfSet a b p → SpanIfSet a b (p + 1)
SpanIfSet-suc none b p h = tt
SpanIfSet-suc (some a) none p h = tt
SpanIfSet-suc (some a) (some b) p h = omega arith

Span-suc : (a b : Option ℕ) (p : ℕ) → Span a b p → Span a b (p + 1)
Span-suc none b p h = absurd h
Span-suc (some a) none p h = absurd h
Span-suc (some a) (some b) p h = omega arith

Version-suc : (a b : Option ℕ) (p : ℕ) → Version a b p → Version a b (p + 1)
Version-suc none b p h = absurd h
Version-suc (some a) none p h = absurd h
Version-suc (some a) (some b) p h = omega arith

At-suc : (a : Option ℕ) (p : ℕ) → At a p → At a (p + 1)
At-suc none p h = absurd h
At-suc (some a) p h = omega arith

Sane-suc : (p : ℕ) (m : Marks) → Sane p m → Sane (p + 1) m
Sane-suc p m s = record {
  schema = SpanIfSet-suc _ _ p s.schema;
  host = SpanIfSet-suc _ _ p s.host;
  port = SpanIfSet-suc _ _ p s.port;
  path = SpanIfSet-suc _ _ p s.path;
  pathname = SpanIfSet-suc _ _ p s.pathname;
}

InVersion-suc : (p : ℕ) (m : Marks) → InVersion p m → InVersion (p + 1) m
InVersion-suc p m v = record {
  started = record { line = At-suc _ p v.started.line; unended = v.started.unended };
  sane = Sane-suc p m v.sane;
  method = Span-suc _ _ p v.method;
  uri = Span-suc _ _ p v.uri;
}

keep_if :
    (p : ℕ) (b : Bool) (s t : Step Marks) → Keeps p s → Keeps p t → Keeps p (if b then s else t)
keep_if p true s t h k = h
keep_if p false s t h k = k

go_if :
    (p : ℕ) (b : Bool) (st : ParserState) (m : Marks)
    → Inv st (p + 1) m
    → Keeps p (if b then go st m else refuse)
go_if p b st m h = keep_if p b (go st m) refuse h tt

Version-of_minor : (major : Option ℕ) (p : ℕ) → At major p → Version major (some p) (p + 1)
Version-of_minor none p h = absurd h
Version-of_minor (some a) p h = omega arith

-- The line ends at `p`, behind all that was marked.
line_end : (p : ℕ) (m : Marks) (start : Option ℕ) → At start p → Span start (some p) p
line_end p m none h = absurd h
line_end p m (some a) h = omega arith

lf_step-Inv :
    (p ch : ℕ) (m : Marks)
    → InVersion p m
    → Version m.http_major m.http_minor p
    → Keeps p (version_step rl_lf p ch m)
unfolding version_step
lf_step-Inv p ch m v w =
    rw (v.started.unended, version_step)
      (
        refl,
        record {
          request_line = line_end p m _ v.started.line;
          method = v.method;
          uri = v.uri;
          sane = record {
            schema = v.sane.schema;
            host = v.sane.host;
            port = v.sane.port;
            path = v.sane.path;
            pathname = v.sane.pathname;
          };
          version = w;
        },
      )

-- Marking a part of the version leaves the rest of the line alone.
at_major : (p : ℕ) (m : Marks) → InVersion p m → InVersion p (record m { http_major = some p })
at_major p m v = ground arith

at_minor : (p : ℕ) (m : Marks) → InVersion p m → InVersion p (record m { http_minor = some p })
at_minor p m v = ground arith

-- Every step keeps what is known of its state, or accepts with the marks in order.
pub request_step-Inv :
    (block : Bytes) (st : ParserState) (p ch : ℕ) (m : Marks)
    → Inv st p m
    → Keeps p (request_step block st p ch m)
unfolding request_step
request_step-Inv block rl_start p ch m v = start_step-Inv p ch m v
request_step-Inv block rl_method p ch m v = method_step-Inv block p ch m v
request_step-Inv block rl_sp_after_method p ch m v = target_step-Inv p ch m v
request_step-Inv block rl_schema p ch m v = schema_step-Inv p ch m v
request_step-Inv block rl_schema_slash p ch m v = schema_slash_step-Inv p ch m v
request_step-Inv block rl_schema_slash_slash p ch m v = schema_slash_slash_step-Inv p ch m v
request_step-Inv block rl_host p ch m v = host_step-Inv p ch m v
request_step-Inv block rl_port p ch m v = port_step-Inv p ch m v
request_step-Inv block rl_path p ch m v = path_step-Inv p ch m v
request_step-Inv block rl_pathname p ch m v = pathname_step-Inv p ch m v
request_step-Inv block rl_version_start p ch m v =
    keep_if p (ch == b'H') (go rl_version_h m) _ (InVersion-suc p m v)
      (keep_if p (not (ch == b' ')) refuse (go rl_version_start m) tt (InVersion-suc p m v))
request_step-Inv block rl_version_h p ch m v =
    go_if p (ch == b'T') rl_version_ht m (InVersion-suc p m v)
request_step-Inv block rl_version_ht p ch m v =
    go_if p (ch == b'T') rl_version_htt m (InVersion-suc p m v)
request_step-Inv block rl_version_htt p ch m v =
    go_if p (ch == b'P') rl_version_http m (InVersion-suc p m v)
request_step-Inv block rl_version_http p ch m v =
    go_if p (ch == b'/') rl_version_http_slash m (InVersion-suc p m v)
request_step-Inv block rl_version_http_slash p ch m v =
    let m' = record m { http_major = some p } in
    go_if p (ch == b'1') rl_version_major m' (InVersion-suc p m' (at_major p m v), omega arith)
request_step-Inv block rl_version_major p ch m v =
    go_if p (ch == b'.') rl_version_dot m (InVersion-suc p m v.0, At-suc _ p v.1)
request_step-Inv block rl_version_dot p ch m v =
    let m' = record m { http_minor = some p } in
    go_if p (ch == b'0' || ch == b'1') rl_version_minor m'
      (InVersion-suc p m' (at_minor p m v.0), Version-of_minor _ p v.1)
request_step-Inv block rl_version_minor p ch m v =
    let later : Inv rl_cr (p + 1) m = (InVersion-suc p m v.0, Version-suc _ _ p v.1) in
    keep_if p (ch == b'\r') (go rl_cr m) _ later (go_if p (ch == b'\n') rl_lf m later)
request_step-Inv block rl_cr p ch m v =
    go_if p (ch == b'\n') rl_lf m (InVersion-suc p m v.0, Version-suc _ _ p v.1)
request_step-Inv block rl_lf p ch m v = lf_step-Inv p ch m v.0 v.1
request_step-Inv block _ p ch m v = absurd v
