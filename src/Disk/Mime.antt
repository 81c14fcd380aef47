-- ===== src/Disk/Mime.antt =====
-- src/disk/xps_mime.c: the type of a file by its extension.
pub mod Types
use nw_lab.Prelude.{Bytes, List, [], ◌∷◌, Option, none, some, codes, if◌then◌else◌}
use nw_lab.Text.{strcmp_eq}
use nw_lab.Utils.{get_file_ext}

abbrev pub mime_types : List (Bytes × Bytes)
mime_types =
    (codes ".h", codes "text/x-c")
    ∷ (codes ".c", codes "text/x-c")
    ∷ (codes ".cc", codes "text/x-c")
    ∷ (codes ".cpp", codes "text/x-c")
    ∷ (codes ".jpg", codes "image/jpeg")
    ∷ (codes ".jpeg", codes "image/jpeg")
    ∷ (codes ".pdf", codes "application/pdf")
    ∷ (codes ".dir", codes "application/x-director")
    ∷ (codes ".dxr", codes "application/x-director")
    ∷ (codes ".fgd", codes "application/x-director")
    ∷ (codes ".swa", codes "application/x-director")
    ∷ (codes ".text", codes "text/plain")
    ∷ (codes ".txt", codes "text/plain")
    ∷ (codes ".png", codes "image/png")
    ∷ (codes ".pdf", codes "application/pdf")
    ∷ (codes ".json", codes "application/json")
    ∷ (codes ".html", codes "text/html")
    ∷ (codes ".txt", codes "text/plain")
    ∷ []

unfoldable pub find_mime : List (Bytes × Bytes) → Bytes → Option Bytes
find_mime [] ext = none
find_mime ((key, val) ∷ types) ext = if strcmp_eq key ext then some val else find_mime types ext

unfoldable pub get_mime : Bytes → Option Bytes
unfolding find_mime
get_mime file_path = elim (get_file_ext file_path) [
  | none ↦ none
  | some ext ↦ find_mime mime_types ext
]
