-- ===== src/Utils.antt =====
-- src/utils/xps_utils.c: strings and paths. (`vec_filter_null` is in Vec; the functions that only
-- call the operating system are not modelled.)
pub mod Prefix
pub mod Extension
pub mod Slices
pub mod Tests
use nw_lab.Prelude.{
  ℕ, ◌-◌, Bool, true, false, not, ◌&&◌, ◌||◌, Bytes, ◌∷◌, ◌++◌, Option, none, some, Exec, done,
  abort, fault, ◌>>=◌, ◌>>◌, assert, access, ltb, leb, ◌==◌, if◌then◌else◌, length, take, drop,
  get_or,
}
use nw_lab.Text.{cstr, strncmp_eq, strrchr}

unfoldable pub is_valid_port : ℕ → Bool
is_valid_port port = leb 0 port && leb port 65535

-- The two pointers as offsets into one block. `given` answers the `malloc`.
unfoldable pub str_from_ptrs : (given : Bool) → Bytes → (start end : Option ℕ) → Exec (Option Bytes)
str_from_ptrs given block none end = abort
str_from_ptrs given block (some start) none = abort
str_from_ptrs given block (some start) (some end) = do
  assert (leb start end)
  elim given [
    | false ↦ done none
    | true ↦ access (leb end (length block)) >>= λ _.
        done (some (cstr (take (end - start) (drop start block))))
  ]

-- The suffix from the last dot, if that stands behind the last slash.
unfoldable pub get_file_ext : Bytes → Option Bytes
get_file_ext file_path = elim (strrchr file_path b'.') [
  | none ↦ none
  | some dot ↦ elim (strrchr file_path b'/') [
    | none ↦ some (drop dot file_path)
    | some slash ↦ if ltb slash dot then some (drop dot file_path) else none
  ]
]

-- The last part: a prefix that ends in a slash matches, any other only up to a path boundary.
abbrev ends_at_boundary : Bytes → Bytes → Bool
ends_at_boundary str prefix =
    let prefix_len = length prefix in
    if ltb 0 prefix_len && get_or prefix (prefix_len - 1) 0 == b'/'
    then true
    else get_or str prefix_len 0 == 0 || get_or str prefix_len 0 == b'/'

unfoldable pub str_starts_with : (str prefix : Bytes) → Bool
str_starts_with str prefix =
    if ltb (length str) (length prefix)
    then false
    else if not (strncmp_eq (length prefix) str prefix)
    then false
    else ends_at_boundary str prefix

-- `given` answers the `malloc`, whose answer is not looked at.
unfoldable pub path_join : (given : Bool) → (path_1 path_2 : Option Bytes) → Exec Bytes
path_join given none path_2 = abort
path_join given (some path_1) none = abort
path_join given (some path_1) (some path_2) =
    if given then done (path_1 ++ (b'/' ∷ path_2)) else fault

unfoldable pub str_create : (given : Bool) → Option Bytes → Exec (Option Bytes)
str_create given none = abort
str_create given (some str) = if given then done (some str) else done none

-- What `stat` says of a path that it finds.
pub data FileKind : Type 0 where
  directory regular other : FileKind

unfoldable pub is_dir : (stat : Bytes → Option FileKind) → Bytes → Bool
is_dir stat path = elim (stat path) [ some directory ↦ true | _ ↦ false ]

unfoldable pub is_file : (stat : Bytes → Option FileKind) → Bytes → Bool
is_file stat path = elim (stat path) [ some regular ↦ true | _ ↦ false ]

unfoldable pub is_abs_path : Bytes → Bool
is_abs_path path = get_or path 0 0 == b'/'
