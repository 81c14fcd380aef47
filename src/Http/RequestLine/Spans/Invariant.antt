-- ===== src/Http/RequestLine/Spans/Invariant.antt =====
-- What the request-line parser knows of its marks in each of its states.
use nw_lab.Http.RequestLine.{request_step}
use nw_lab.Http.Scan.{Step}
use nw_lab.Http.Scan.Safety.{After}
use nw_lab.Http.State.{
  ParserState, Marks, rl_start, rl_method, rl_sp_after_method, rl_schema, rl_schema_slash,
  rl_schema_slash_slash, rl_host, rl_port, rl_path, rl_pathname, rl_version_start, rl_version_h,
  rl_version_ht, rl_version_htt, rl_version_http, rl_version_http_slash, rl_version_major,
  rl_version_dot, rl_version_minor, rl_cr, rl_lf,
}
use nw_lab.Prelude.{ℕ, ◌+◌, ◌≤◌, ◌≡◌, [], Option, none, some}
use nw_lab.Status.{Code, ok}

-- Set, and not behind `p`.
abbrev pub At : Option ℕ → ℕ → Type 0
At none p = ⊥
At (some a) p = a ≤ p

-- Both set, in order, and not behind `p`.
abbrev pub Span : Option ℕ → Option ℕ → ℕ → Type 0
Span (some a) (some b) p = (a ≤ b) × (b ≤ p)
Span _ _ p = ⊥

-- In order if both are set.
abbrev pub SpanIfSet : Option ℕ → Option ℕ → ℕ → Type 0
SpanIfSet (some a) (some b) p = (a ≤ b) × (b ≤ p)
SpanIfSet _ _ p = Unit {0}

-- The pairs that may be missing.
pub record Sane (p : ℕ) (m : Marks) : Type 0 where
  pub schema : SpanIfSet m.schema_start m.schema_end p
  pub host : SpanIfSet m.host_start m.host_end p
  pub port : SpanIfSet m.port_start m.port_end p
  pub path : SpanIfSet m.path_start m.path_end p
  pub pathname : SpanIfSet m.pathname_start m.pathname_end p

-- Still as `memset` left them.
pub record Unset (m : Marks) : Type 0 where
  pub host : m.host_end ≡ none
  pub port_start : m.port_start ≡ none
  pub port_end : m.port_end ≡ none
  pub path : m.path_end ≡ none
  pub pathname : m.pathname_end ≡ none

pub record Started (p : ℕ) (m : Marks) : Type 0 where
  pub line : At m.request_line_start p
  pub unended : m.request_line_end ≡ none

-- One record for each part of the line that the parser may be in.
pub record InStart (m : Marks) : Type 0 where
  pub unset : Unset m
  pub schema_unset : m.schema_end ≡ none
  pub unended : m.request_line_end ≡ none

pub record InMethod (p : ℕ) (m : Marks) : Type 0 where
  pub started : Started p m
  pub unset : Unset m
  pub schema_unset : m.schema_end ≡ none
  pub method_open : At m.method_start p

pub record BeforeTarget (p : ℕ) (m : Marks) : Type 0 where
  pub started : Started p m
  pub unset : Unset m
  pub schema_unset : m.schema_end ≡ none
  pub method : Span m.method_start m.method_end p

pub record Target (p : ℕ) (m : Marks) : Type 0 where
  pub started : Started p m
  pub sane : Sane p m
  pub method : Span m.method_start m.method_end p
  pub uri : At m.uri_start p

pub record InSchema (p : ℕ) (m : Marks) : Type 0 where
  pub target : Target p m
  pub unset : Unset m
  pub schema_open : At m.schema_start p

pub record InHost (p : ℕ) (m : Marks) : Type 0 where
  pub target : Target p m
  pub unset : Unset m
  pub host_open : At m.host_start p

pub record InPort (p : ℕ) (m : Marks) : Type 0 where
  pub target : Target p m
  pub port_open : At m.port_start p
  pub path_unset : m.path_end ≡ none
  pub pathname_unset : m.pathname_end ≡ none

pub record InPath (p : ℕ) (m : Marks) : Type 0 where
  pub target : Target p m
  pub path_open : At m.path_start p
  pub pathname_open : At m.pathname_start p

pub record InVersion (p : ℕ) (m : Marks) : Type 0 where
  pub started : Started p m
  pub sane : Sane p m
  pub method : Span m.method_start m.method_end p
  pub uri : Span m.uri_start m.uri_end p

-- `http_version` runs from the major to one past the minor.
abbrev pub Version : Option ℕ → Option ℕ → ℕ → Type 0
Version (some a) (some b) p = (a ≤ b + 1) × (b + 1 ≤ p)
Version _ _ p = ⊥

-- What success leaves behind at offset `p`.
pub record Accepted (p : ℕ) (m : Marks) : Type 0 where
  pub request_line : Span m.request_line_start m.request_line_end p
  pub method : Span m.method_start m.method_end p
  pub uri : Span m.uri_start m.uri_end p
  pub sane : Sane p m
  pub version : Version m.http_major m.http_minor p

abbrev pub Inv : ParserState → ℕ → Marks → Type 0
Inv rl_start p m = InStart m
Inv rl_method p m = InMethod p m
Inv rl_sp_after_method p m = BeforeTarget p m
Inv rl_schema p m = InSchema p m
Inv rl_schema_slash p m = InSchema p m
Inv rl_schema_slash_slash p m = InSchema p m
Inv rl_host p m = InHost p m
Inv rl_port p m = InPort p m
Inv rl_path p m = InPath p m
Inv rl_pathname p m = InPath p m
Inv rl_version_start p m = InVersion p m
Inv rl_version_h p m = InVersion p m
Inv rl_version_ht p m = InVersion p m
Inv rl_version_htt p m = InVersion p m
Inv rl_version_http p m = InVersion p m
Inv rl_version_http_slash p m = InVersion p m
Inv rl_version_major p m = InVersion p m × At m.http_major p
Inv rl_version_dot p m = InVersion p m × At m.http_major p
Inv rl_version_minor p m = InVersion p m × Version m.http_major m.http_minor p
Inv rl_cr p m = InVersion p m × Version m.http_major m.http_minor p
Inv rl_lf p m = InVersion p m × Version m.http_major m.http_minor p
Inv _ p m = ⊥

abbrev pub Good : Code → ℕ → Marks → Type 0
Good c p m = (c ≡ ok) × Accepted p m

abbrev pub Keeps : ℕ → Step Marks → Type 0
Keeps p s = After (request_step []) Inv Good p s
