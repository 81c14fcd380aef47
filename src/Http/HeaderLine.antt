-- ===== src/Http/HeaderLine.antt =====
-- src/http/xps_http.c: `xps_http_parse_header_line`.
pub mod Accepts
pub mod Stops
use nw_lab.Http.Scan.{Step, refuse, go, stop, within, scan, Parse, parse_with}
use nw_lab.Http.State.{
  ParserState, HeaderMarks, h_start, h_name, h_colon, h_sp_after_colon, h_val, h_cr, h_lf, h_lf_lf,
  h_lf_cr,
}
use nw_lab.Prelude.{ℕ, Bool, ◌||◌, Bytes, some, Exec, ◌==◌, if◌then◌else◌}
use nw_lab.Status.{ok, e_next}

unfoldable pub is_letter : ℕ → Bool
is_letter ch = within b'A' b'Z' ch || within b'a' b'z' ch

abbrev val_start : ℕ → HeaderMarks → Step HeaderMarks
val_start p m = go h_val (record m { header_val_start = some p })

unfoldable pub header_step : ParserState → (p ch : ℕ) → HeaderMarks → Step HeaderMarks
unfolding is_letter
header_step h_start p ch m =
    if is_letter ch then go h_name (record m { header_key_start = some p }) else refuse
header_step h_name p ch m =
    if is_letter ch || ch == b'-'
    then go h_name m
    else if ch == b':'
    then go h_colon (record m { header_key_end = some p })
    else refuse
header_step h_colon p ch m = if ch == b' ' then go h_sp_after_colon m else val_start p m
header_step h_sp_after_colon p ch m = if ch == b' ' then go h_sp_after_colon m else val_start p m
header_step h_val p ch m =
    if ch == b'\r' || ch == b'\n'
    then go (if ch == b'\r' then h_cr else h_lf) (record m { header_val_end = some p })
    else go h_val m
header_step h_cr p ch m = if ch == b'\n' then go h_lf m else refuse
header_step h_lf p ch m =
    if ch == b'\n' then go h_lf_lf m else if ch == b'\r' then go h_lf_cr m else stop e_next m
header_step h_lf_lf p ch m = stop ok m
header_step h_lf_cr p ch m = if ch == b'\n' then stop ok m else refuse
header_step _ p ch m = refuse

-- `xps_http_parse_header_line`, on the block, the length and the position of a buffer.
unfoldable pub parse_header_line :
    Bytes → (len pos : ℕ) → ParserState → HeaderMarks → Exec (Parse HeaderMarks)
unfolding header_step scan
parse_header_line block len pos st m = parse_with header_step len pos block st m
