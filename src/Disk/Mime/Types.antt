-- ===== src/Disk/Mime/Types.antt =====
-- src/disk/xps_mime.c: the lookup on the rows of its table.
use nw_lab.Disk.Mime.{mime_types, find_mime, get_mime}
use nw_lab.Prelude.{◌≡◌, refl, Bytes, List, [], ◌∷◌, ◌++◌, some, arith, codes}
use nw_lab.Text.{strcmp_eq}
use nw_lab.Utils.Extension.{Lacks, get_file_ext-append}

-- Any path that ends in one of the extensions gets its type.
abbrev pub AllTyped : List (Bytes × Bytes) → Type 0
AllTyped [] = Unit {0}
AllTyped ((ext, type) ∷ types) =
    ((init : Bytes) → get_mime (init ++ ext) ≡ some type) × AllTyped types

typed :
    (tail type : Bytes)
    → Lacks b'.' tail
    → Lacks b'/' tail
    → find_mime mime_types (b'.' ∷ tail) ≡ some type
    → (init : Bytes) → get_mime (init ++ (b'.' ∷ tail)) ≡ some type
unfolding get_mime
typed tail type d s e init = rw (get_file_ext-append init tail d s, get_mime) e

-- Whatever stands in front, also nothing: a path that ends in an extension of the table has the
-- type that the table gives it, so that the rows that come twice agree.
pub mime_types-AllTyped : AllTyped mime_types
unfolding find_mime strcmp_eq
mime_types-AllTyped = (
  typed (codes "h") (codes "text/x-c") (ground arith) (ground arith) refl,
  (
    typed (codes "c") (codes "text/x-c") (ground arith) (ground arith) refl,
    (
      typed (codes "cc") (codes "text/x-c") (ground arith) (ground arith) refl,
      (
        typed (codes "cpp") (codes "text/x-c") (ground arith) (ground arith) refl,
        (
          typed (codes "jpg") (codes "image/jpeg") (ground arith) (ground arith) refl,
          (
            typed (codes "jpeg") (codes "image/jpeg") (ground arith) (ground arith) refl,
            (
              typed (codes "pdf") (codes "application/pdf") (ground arith) (ground arith) refl,
              (
                typed (codes "dir") (codes "application/x-director") (ground arith) (ground arith)
                    refl,
                (
                  typed (codes "dxr") (codes "application/x-director") (ground arith) (ground arith)
                      refl,
                  (
                    typed (codes "fgd") (codes "application/x-director") (ground arith)
                        (ground arith) refl,
                    (
                      typed (codes "swa") (codes "application/x-director") (ground arith)
                          (ground arith) refl,
                      (
                        typed (codes "text") (codes "text/plain") (ground arith) (ground arith)
                            refl,
                        (
                          typed (codes "txt") (codes "text/plain") (ground arith) (ground arith)
                              refl,
                          (
                            typed (codes "png") (codes "image/png") (ground arith) (ground arith)
                                refl,
                            (
                              typed (codes "pdf") (codes "application/pdf") (ground arith)
                                  (ground arith) refl,
                              (
                                typed (codes "json") (codes "application/json") (ground arith)
                                    (ground arith) refl,
                                (
                                  typed (codes "html") (codes "text/html") (ground arith)
                                      (ground arith) refl,
                                  (
                                    typed (codes "txt") (codes "text/plain") (ground arith)
                                        (ground arith) refl,
                                    tt,
                                  ),
                                ),
                              ),
                            ),
                          ),
                        ),
                      ),
                    ),
                  ),
                ),
              ),
            ),
          ),
        ),
      ),
    ),
  ),
)
