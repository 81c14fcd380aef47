-- ===== src/Disk/File.antt =====
-- src/disk/xps_file.c: a file as the source of a pipe.
--
-- The operating system is a record of what it answers: `realpath`, `stat` and `fopen`.
pub mod Public
pub mod Sends
pub mod Tests
use nw_lab.Buffer.{Buffer, buffer_create}
use nw_lab.Core.Pipe.{Store, source_create, source_destroy}
use nw_lab.Core.Pipe.Transfer.{source_write}
use nw_lab.Core.Pipe.Ready.{set_source_ready}
use nw_lab.Disk.Mime.{get_mime}
use nw_lab.Memory.{Alloc, memcpy}
use nw_lab.Prelude.{
  ℕ, Bool, true, false, ◌&&◌, ◌||◌, Bytes, ◌++◌, Option, none, some, ◌⊎◌, inl, inr, Exec, done,
  ◌>>=◌, ltb, ◌==◌, if◌then◌else◌, length, get_or, codes,
}
use nw_lab.Status.{Code, ok, e_fail, e_notfound, e_permission}
use nw_lab.Text.{strncmp_eq}

-- The values of `errno` that are told apart.
pub data Errno : Type 0 where
  enoent eacces other : Errno

-- `st_size`, and whether `st_mode` has `S_IROTH`.
pub record FileStat : Type 0 where
  pub size : ℕ
  pub others_read : Bool

pub record Os : Type 0 where
  pub realpath : Bytes → Option Bytes
  pub stat : Bytes → Errno ⊎ FileStat
  pub fopen : Bytes → Errno ⊎ ℕ

-- `xps_file_s`, its core apart.
pub record File : Type 0 where
  pub file_path : Bytes
  pub source : ℕ
  pub file_struct : ℕ
  pub size : ℕ
  pub mime_type : Option Bytes

unfoldable pub resolve_public_path : Os → Option Bytes
resolve_public_path os = elim (os.realpath (codes "public")) [
  | some path ↦ some path
  | none ↦ os.realpath (codes "../public")
]

-- `snprintf` has `PATH_MAX`, 4096, bytes for the other path.
unfoldable pub resolve_file_path : Os → Bytes → Option Bytes
resolve_file_path os file_path = elim (os.realpath file_path) [
  | some path ↦ some path
  | none ↦
      let alt_path = codes "../" ++ file_path in
      if get_or file_path 0 0 == b'/'
      then none
      else if ltb (length alt_path) 4096
      then os.realpath alt_path
      else none
]

unfoldable pub inside_public : (path public : Bytes) → Bool
inside_public path public =
    strncmp_eq (length public) path public
    && (get_or path (length public) 0 == b'/' || get_or path (length public) 0 == 0)

-- `*error`, the file, and the store.
abbrev pub Opened : Type 0
Opened = Code × Option File × Store

abbrev stat_error : Errno → Code
stat_error enoent = e_notfound
stat_error _ = e_fail

abbrev open_error : Errno → Code
open_error eacces = e_permission
open_error enoent = e_notfound
open_error other = e_fail

-- From the allocation of the file on; `self` is the file's address.
unfoldable pub file_init :
    (given source_given : Bool)
    → (self : ℕ) → (path : Bytes) → FileStat
    → (file_struct : ℕ) → Store
    → Exec Opened
file_init false source_given self path file_stat file_struct s = done (e_fail, none, s)
file_init true source_given self path file_stat file_struct s =
    let (source, s1) = source_create source_given self s in
    elim source [
      | none ↦ done (e_fail, none, s1)
      | some i ↦ do
        s2 ← set_source_ready i true s1
        done (
          ok,
          some (record {
            file_path = path;
            source = i;
            file_struct = file_struct;
            size = file_stat.size;
            mime_type = get_mime path;
          }),
          s2,
        )
    ]

unfoldable pub file_open :
    Os → (given source_given : Bool) → (self : ℕ) → (path public : Bytes) → Store → Exec Opened
unfolding file_init
file_open os given source_given self path public s = elim (inside_public path public) [
  | false ↦ done (e_permission, none, s)
  | true ↦ elim (os.stat path) [
    | inl errno ↦ done (stat_error errno, none, s)
    | inr file_stat ↦ elim file_stat.others_read [
      | false ↦ done (e_permission, none, s)
      | true ↦ elim (os.fopen path) [
        | inl errno ↦ done (open_error errno, none, s)
        | inr file_struct ↦ file_init given source_given self path file_stat file_struct s
      ]
    ]
  ]
]

unfoldable pub file_create :
    Os → (given source_given : Bool) → (self : ℕ) → (file_path : Bytes) → Store → Exec Opened
unfolding file_open
file_create os given source_given self file_path s = elim (resolve_file_path os file_path) [
  | none ↦ done (e_notfound, none, s)
  | some path ↦ elim (resolve_public_path os) [
    | none ↦ done (e_fail, none, s)
    | some public ↦ file_open os given source_given self path public s
  ]
]

-- The source is freed; `fclose` is the operating system's.
unfoldable pub file_destroy : File → Store → Exec Store
file_destroy file s = source_destroy file.source s

-- What `fread`, `ferror` and `feof` answer.
pub record Read : Type 0 where
  pub bytes : Bytes
  pub error : Bool
  pub eof : Bool

-- The tests for an error and for the end, and the write.
unfoldable pub send_filled :
    Alloc → (grown : Bool) → Read → File → Buffer → Store → Exec (Option File × Store)
send_filled copy grown read file buff s =
    elim (read.error || (length read.bytes == 0 && read.eof)) [
      | true ↦ file_destroy file s >>= λ s1. done (none, s1)
      | false ↦ source_write copy grown file.source buff s >>= λ r. done (some file, r.1)
    ]

unfoldable pub send_read :
    Alloc → (grown : Bool) → Read → File → Option Buffer → Store → Exec (Option File × Store)
send_read copy grown read file none s = done (some file, s)
send_read copy grown read file (some buff) s =
    memcpy buff.data_block 0 read.bytes 0 (length read.bytes) >>= λ block.
    send_filled copy grown read file (record buff { len = length read.bytes; data_block = block }) s

-- `a` answers the allocations of the buffer, `copy` those of its copy in the pipe.
unfoldable pub file_source_handler :
    (a copy : Alloc) → (grown : Bool) → Read → File → Store → Exec (Option File × Store)
unfolding send_read
file_source_handler a copy grown read file s =
    buffer_create a 100000 0 none >>= λ buff. send_read copy grown read file buff s

-- `file_source_close_handler`.
unfoldable pub file_close_handler : File → Store → Exec Store
file_close_handler file s = file_destroy file s
