-- ===== src/Disk/Directory.antt =====
-- src/disk/xps_directory.c: the HTML listing of a directory.
--
-- What `opendir`, `readdir`, `stat`, `localtime_r` with `strftime`, and `snprintf` of a number answer are
-- parameters. The block of the page is the text that was written into it so far.
pub mod Listing
pub mod Tests
use nw_lab.Buffer.{Buffer, buffer_create}
use nw_lab.Memory.{Alloc}
use nw_lab.Prelude.{
  ℕ, ◌+◌, ◌-◌, Bool, true, false, not, ◌&&◌, ◌||◌, Bytes, List, [], ◌∷◌, ◌++◌, Option, none, some,
  Exec, done, Mallocs, ◌>>=◌, ◌>>◌, assert, ltb, ◌==◌, if◌then◌else◌, length, take, get_or, codes,
}
use nw_lab.Text.{strcmp_eq}
use nw_lab.Utils.{FileKind, directory, other}

-- `st_mode`, `st_size` and `st_mtime`.
pub record EntryStat : Type 0 where
  pub kind : FileKind
  pub size : ℕ
  pub mtime : ℕ

-- `readdir` gives the names in the order of the list; `date` is the text of a time, none where
-- `localtime_r` fails; `kilobytes` is what "%.2f KB" prints for a size over 1024.
pub record System : Type 0 where
  pub opendir : Bytes → Option (List Bytes)
  pub stat : Bytes → Option EntryStat
  pub date : ℕ → Option Bytes
  pub kilobytes : ℕ → Bytes

-- `DEFAULT_BUFFER_SIZE`.
abbrev pub page_size : ℕ
page_size = 100000

-- None where `vsnprintf` has no room for the text and its NUL.
unfoldable pub append_html : (buff : Bytes) → Bytes → Exec (Option Bytes)
append_html buff text = do
  assert (ltb (length buff) page_size)
  done (if ltb (length text) (page_size - length buff) then some (buff ++ text) else none)

abbrev is_directory : FileKind → Bool
is_directory directory = true
is_directory _ = false

abbrev is_shown : FileKind → Bool
is_shown other = false
is_shown _ = true

-- The label has room for 31 characters.
unfoldable pub directory_size_label : System → EntryStat → Bytes
directory_size_label sys file_stat =
    if is_directory file_stat.kind then codes "-" else take 31 (sys.kilobytes file_stat.size)

unfoldable pub mtime_text : System → EntryStat → Bytes
mtime_text sys file_stat = elim (sys.date file_stat.mtime) [ some text ↦ text | none ↦ codes "-" ]

-- Without the slash at the end.
abbrev strip_slash : Bytes → Bytes
strip_slash path =
    if get_or path (length path - 1) 0 == b'/' then take (length path - 1) path else path

unfoldable pub href_prefix : (pathname : Bytes) → Bytes
href_prefix pathname =
    let temp_pathname = strip_slash pathname in
    if strcmp_eq temp_pathname (codes "/") then [] else temp_pathname

unfoldable pub row : System → (pathname d_name : Bytes) → EntryStat → Bytes
unfolding directory_size_label mtime_text href_prefix
row sys pathname d_name file_stat =
    codes "<tr><td><a href='"
    ++ (href_prefix pathname
        ++ (codes "/"
            ++ (d_name
                ++ (codes "'>"
                    ++ (d_name
                        ++ ((if is_directory file_stat.kind then codes "/" else [])
                            ++ (codes "</a></td><td>"
                                ++ (mtime_text sys file_stat
                                    ++ (codes "</td><td>"
                                        ++ (directory_size_label sys file_stat
                                            ++ codes "</td></tr>\n"))))))))))

-- What an entry adds, none where it is passed over. `given` answers `str_create`; the path has room
-- for 1023 characters.
unfoldable pub entry : System → (given : Bool) → (dir_path pathname d_name : Bytes) → Option Bytes
unfolding row
entry sys given dir_path pathname d_name =
    let full_path = dir_path ++ (b'/' ∷ d_name) in
    if strcmp_eq d_name (codes ".") || strcmp_eq d_name (codes "..")
    then none
    else if not (ltb (length full_path) 1024)
    then none
    else elim (sys.stat full_path) [
      | none ↦ none
      | some file_stat ↦
          if is_shown file_stat.kind && given
          then some (row sys pathname d_name file_stat)
          else none
    ]

-- The loop over the entries from number `i` on; it ends at the first row that has no room.
unfoldable pub entries :
    System
    → (given : Mallocs) → (dir_path pathname : Bytes) → (i : ℕ) → List Bytes
    → (buff : Bytes) → Exec Bytes
entries sys given dir_path pathname i [] buff = done buff
entries sys given dir_path pathname i (d_name ∷ names) buff =
    elim (entry sys (given i) dir_path pathname d_name) [
      | none ↦ entries sys given dir_path pathname (i + 1) names buff
      | some text ↦ append_html buff text >>= λ o. elim o [
        | none ↦ done buff
        | some longer ↦ entries sys given dir_path pathname (i + 1) names longer
      ]
    ]

unfoldable pub page_head : (pathname : Bytes) → Bytes
page_head pathname =
    codes
      "<html><head lang='en'><meta http-equiv='Content-Type' content='text/html; charset=UTF-8'><meta name='viewport' content='width=device-width, initial-scale=1.0'><title>Directory: "
    ++ (pathname
        ++ (codes
              "</title><style>body{font-family: monospace; font-size: 15px;}table{border-collapse: collapse;}th,td{padding: 4px 10px 4px 0;text-align:left;vertical-align:top;}th{border-bottom:1px solid rgba(0,0,0,0.2);}h1{font-family: serif; margin: 0;}h3{font-family: serif;margin: 12px 0px; background-color: rgba(0,0,0,0.1);padding: 4px 0px;}</style></head><body><h1>eXpServer</h1><h3>Index of&nbsp;"
            ++ (pathname
                ++ codes
                    "</h3><hr><table><tr><th>Name</th><th>Last modified</th><th>Size</th></tr>")))

abbrev pub page_foot : Bytes
page_foot = codes "</table></body></html>"

-- The page becomes a buffer that has its final NUL as well.
unfoldable pub finish_page : Alloc → (buff : Bytes) → Exec (Option Buffer)
unfolding append_html
finish_page a buff = append_html buff page_foot >>= λ o. elim o [
  | none ↦ done none
  | some page ↦ buffer_create a (length page + 1) (length page) (some (page ++ (0 ∷ [])))
]

unfoldable pub list_entries :
    System → Alloc → (given : Mallocs) → (dir_path pathname buff : Bytes) → Exec (Option Buffer)
unfolding finish_page
list_entries sys a given dir_path pathname buff = elim (sys.opendir dir_path) [
  | none ↦ done none
  | some names ↦ entries sys given dir_path pathname 1 names buff >>= λ filled. finish_page a filled
]

-- `given 0` answers the allocation of the page.
unfoldable pub directory_browsing :
    System → Alloc → (given : Mallocs) → (dir_path pathname : Bytes) → Exec (Option Buffer)
unfolding list_entries page_head
directory_browsing sys a given dir_path pathname = elim (given 0) [
  | false ↦ done none
  | true ↦ append_html [] (page_head pathname) >>= λ o. elim o [
    | none ↦ done none
    | some buff ↦ list_entries sys a given dir_path pathname buff
  ]
]
