-- ===== src/Http/State.antt =====
-- src/http/xps_http.h and src/http/xps_http_req.h: methods, parser states, what the parsers mark.
use nw_lab.Prelude.{ℕ, Option, none}

pub data Method : Type 0 where
  get head post put delete options trace connect : Method

-- `xps_http_parser_state_t`, the states of the request line. The states of the header lines have
-- the values 0 to 9 again, so they are names for the first ten of these.
pub data ParserState : Type 0 where
  rl_start rl_method rl_sp_after_method : ParserState
  rl_schema rl_schema_slash rl_schema_slash_slash : ParserState
  rl_host_start rl_host rl_host_end rl_host_ip_literal rl_port : ParserState
  rl_slash rl_check_uri rl_path rl_pathname rl_sp_after_uri : ParserState
  rl_version_start rl_version_h rl_version_ht rl_version_htt : ParserState
  rl_version_http rl_version_http_slash : ParserState
  rl_version_major rl_version_dot rl_version_minor rl_cr rl_lf : ParserState

pattern abbrev pub h_start : ParserState
h_start = rl_start

pattern abbrev pub h_name : ParserState
h_name = rl_method

pattern abbrev pub h_colon : ParserState
h_colon = rl_sp_after_method

pattern abbrev pub h_sp_after_colon : ParserState
h_sp_after_colon = rl_schema

pattern abbrev pub h_val : ParserState
h_val = rl_schema_slash

pattern abbrev pub h_cr : ParserState
h_cr = rl_schema_slash_slash

pattern abbrev pub h_lf : ParserState
h_lf = rl_host_start

pattern abbrev pub h_lf_cr : ParserState
h_lf_cr = rl_host

pattern abbrev pub h_lf_lf : ParserState
h_lf_lf = rl_host_end

-- The pointers that the request-line parser sets in `xps_http_req_t`, as offsets into the block.
pub record Marks : Type 0 where
  pub method_n : Method
  pub request_line_start : Option ℕ
  pub request_line_end : Option ℕ
  pub method_start : Option ℕ
  pub method_end : Option ℕ
  pub uri_start : Option ℕ
  pub uri_end : Option ℕ
  pub schema_start : Option ℕ
  pub schema_end : Option ℕ
  pub host_start : Option ℕ
  pub host_end : Option ℕ
  pub port_start : Option ℕ
  pub port_end : Option ℕ
  pub path_start : Option ℕ
  pub path_end : Option ℕ
  pub pathname_start : Option ℕ
  pub pathname_end : Option ℕ
  pub http_major : Option ℕ
  pub http_minor : Option ℕ

-- The same for the header parser.
pub record HeaderMarks : Type 0 where
  pub header_key_start : Option ℕ
  pub header_key_end : Option ℕ
  pub header_val_start : Option ℕ
  pub header_val_end : Option ℕ

-- After `memset(http_req, 0, ...)`: NULL pointers, and the method with the value 0.
abbrev pub no_marks : Marks
no_marks = record {
  method_n = get;
  request_line_start = none;
  request_line_end = none;
  method_start = none;
  method_end = none;
  uri_start = none;
  uri_end = none;
  schema_start = none;
  schema_end = none;
  host_start = none;
  host_end = none;
  port_start = none;
  port_end = none;
  path_start = none;
  path_end = none;
  pathname_start = none;
  pathname_end = none;
  http_major = none;
  http_minor = none;
}

abbrev pub no_header_marks : HeaderMarks
no_header_marks = record {
  header_key_start = none;
  header_key_end = none;
  header_val_start = none;
  header_val_end = none;
}
