-- ===== src/Disk/File/Public.antt =====
-- src/disk/xps_file.c: which files `xps_file_create` opens.
use nw_lab.Core.Pipe.{End, Store, source_create, put}
use nw_lab.Core.Pipe.Links.{put_at}
use nw_lab.Core.Pipe.Ready.{set_source_ready_lem}
use nw_lab.Disk.File.{
  Os, File, FileStat, Opened, Errno, enoent, eacces, other, resolve_file_path, resolve_public_path,
  inside_public, stat_error, open_error, file_init, file_open, file_create,
}
use nw_lab.Disk.Mime.{get_mime}
use nw_lab.Prelude.{
  ℕ, suc, ◌≡◌, ◌≢◌, refl, ◌∙◌, ◌⊎◌, inl, inr, Bool, true, false, Bytes, [], ◌∷◌, ◌++◌, none, some,
  Exec, done, ltb, >>=-done, codes, ◌==◌, get_or, length, arith, Bool-cases, Option-cases,
}
use nw_lab.Status.{Code, ok, e_fail, e_notfound, e_permission}
use nw_lab.Text.{NoNul}
use nw_lab.Utils.Prefix.{strncmp_eq-splits, get_or-append, rest_boundary, NoNul-rest}

-- The path is the directory or lies below it.
pub record IsInside (path directory : Bytes) : Type 0 where
  pub rest : Bytes
  pub splits : path ≡ directory ++ rest
  pub boundary : (rest ≡ []) ⊎ ((more : Bytes) × (rest ≡ b'/' ∷ more))

inside_public-IsInside :
    (path public : Bytes) → NoNul path → inside_public path public ≡ true → IsInside path public
unfolding inside_public
inside_public-IsInside path public clean h =
    let (rest, e) = strncmp_eq-splits path public (ground arith) in
    let same : get_or path (length public) 0 ≡ get_or rest 0 0 = rw e (get_or-append public rest) in
    record {
      rest = rest;
      splits = e;
      boundary = rest_boundary rest (NoNul-rest public rest (rw e at clean)) (ground (arith, same));
    }

-- What is known of a file that was opened: it lies in the public directory, others may read it, and
-- its source is new, ready and in no pipe.
pub record IsPublic (os : Os) (self : ℕ) (f : File) (s s' : Store) : Type 0 where
  pub directory : Bytes
  pub found : resolve_public_path os ≡ some directory
  pub inside : IsInside f.file_path directory
  pub file_stat : FileStat
  pub known : os.stat f.file_path ≡ inr file_stat
  pub readable : file_stat.others_read ≡ true
  pub opened : os.fopen f.file_path ≡ inr f.file_struct
  pub fresh : f.source ≡ s.next
  pub source :
      s'.source_at f.source
      ≡ some (record { pipe = none; ready = true; active = false; owner = self })
  pub pipes : s'.pipe_at ≡ s.pipe_at

-- A file that is public, or an error with the store as it was.
abbrev pub Tried : Os → (self : ℕ) → Store → Exec Opened → Type 0
Tried os self s m =
    ((f : File) × (s' : Store) × (m ≡ done (ok, some f, s')) × IsPublic os self f s s')
    ⊎ ((c : Code) × (m ≡ done (c, none, s)) × (c ≢ ok))

stat_error_lem : (e : Errno) → stat_error e ≢ ok
stat_error_lem enoent = λ h. cc
stat_error_lem eacces = λ h. cc
stat_error_lem other = λ h. cc

open_error_lem : (e : Errno) → open_error e ≢ ok
open_error_lem enoent = λ h. cc
open_error_lem eacces = λ h. cc
open_error_lem other = λ h. cc

file_init-Tried :
    (os : Os) (given source_given : Bool) (self : ℕ) (path directory : Bytes) (st : FileStat)
    (file_struct : ℕ) (s : Store)
    → resolve_public_path os ≡ some directory
    → IsInside path directory
    → os.stat path ≡ inr st
    → st.others_read ≡ true
    → os.fopen path ≡ inr file_struct
    → Tried os self s (file_init given source_given self path st file_struct s)
unfolding file_init source_create
file_init-Tried os false sg self path directory st fd s found inside known readable opened =
    inr (e_fail, refl, λ h. cc)
file_init-Tried os true false self path directory st fd s found inside known readable opened =
    inr (e_fail, refl, λ h. cc)
file_init-Tried os true true self path directory st fd s found inside known readable opened = inl (
  file,
  ready,
  >>=-done _ (set_source_ready_lem s.next true made (new false) (put_at s.source_at s.next _)),
  record {
    directory = directory;
    found = found;
    inside = inside;
    file_stat = st;
    known = known;
    readable = readable;
    opened = opened;
    fresh = refl;
    source = put_at made.source_at s.next _;
    pipes = refl;
  },
)
  where
    new : Bool → End
    new b = record { pipe = none; ready = b; active = false; owner = self }

    made : Store
    made = record s { source_at = put s.source_at s.next (some (new false)); next = suc s.next }

    ready : Store
    ready = record made { source_at = put made.source_at s.next (some (new true)) }

    file : File
    file = record {
      file_path = path;
      source = s.next;
      file_struct = fd;
      size = st.size;
      mime_type = get_mime path;
    }

file_open-Tried :
    (os : Os) (given source_given : Bool) (self : ℕ) (path directory : Bytes) (s : Store)
    → resolve_public_path os ≡ some directory
    → NoNul path
    → Tried os self s (file_open os given source_given self path directory s)
unfolding file_open
file_open-Tried os given sg self path directory s found clean =
    elim (Bool-cases (inside_public path directory)) [
      | inr out ↦ inr (e_permission, rw (out, file_open), λ h. cc)
      | inl within ↦
          by_stat (inside_public-IsInside path directory clean within) within (os.stat path) refl
    ]
  where
    by_stat :
        IsInside path directory
        → inside_public path directory ≡ true
        → (answer : Errno ⊎ FileStat) → os.stat path ≡ answer
        → Tried os self s (file_open os given sg self path directory s)
    by_stat inside within (inl errno) e =
        inr (stat_error errno, rw (within, file_open) (rw e), stat_error_lem errno)
    by_stat inside within (inr st) e = elim (Bool-cases st.others_read) [
      | inr hidden ↦ inr (e_permission, rw (within, file_open) (rw e (rw hidden)), λ h. cc)
      | inl readable ↦ by_fopen readable (os.fopen path) refl
    ]
      where
        by_fopen :
            st.others_read ≡ true
            → (answer : Errno ⊎ ℕ) → os.fopen path ≡ answer
            → Tried os self s (file_open os given sg self path directory s)
        by_fopen readable (inl errno) o = inr (
          open_error errno,
          rw (within, file_open) (rw e (rw readable (rw o))),
          open_error_lem errno,
        )
        by_fopen readable (inr fd) o =
            rw (within, file_open)
              (rw e (
                rw readable (
                  rw o (
                    file_init-Tried os given sg self path directory st fd s found inside e readable
                      o))))

resolve_file_path-NoNul :
    (os : Os) (file_path path : Bytes)
    → ((p r : Bytes) → os.realpath p ≡ some r → NoNul r)
    → resolve_file_path os file_path ≡ some path
    → NoNul path
unfolding resolve_file_path
resolve_file_path-NoNul os file_path path clean h = elim (Option-cases (os.realpath file_path)) [
  | inr (p, e) ↦ clean file_path path (e ∙ (rw (e, resolve_file_path) at h))
  | inl e ↦ elim (Bool-cases (get_or file_path 0 0 == b'/')) [
    | inl absolute ↦ ground (arith, rw (e, absolute, resolve_file_path) at h)
    | inr relative ↦ elim (Bool-cases (ltb (length (codes "../" ++ file_path)) 4096)) [
      | inl short ↦ clean _ path (rw (e, relative, short, resolve_file_path) at h)
      | inr long ↦ ground (arith, rw (e, relative, long, resolve_file_path) at h)
    ]
  ]
]

-- Where `realpath` answers strings without NUL: creating a file always returns. Either it has opened
-- a file that lies in the public directory, that others may read, and whose source is new, ready and
-- in no pipe; or it answers an error and no file, and the store is as it was.
pub file_create-IsPublic :
    (os : Os) (given source_given : Bool) (self : ℕ) (file_path : Bytes) (s : Store)
    → ((p r : Bytes) → os.realpath p ≡ some r → NoNul r)
    → Tried os self s (file_create os given source_given self file_path s)
unfolding file_create
file_create-IsPublic os given sg self file_path s clean =
    elim (Option-cases (resolve_file_path os file_path)) [
      | inl no_file ↦ inr (e_notfound, rw (no_file, file_create), λ h. cc)
      | inr (path, e) ↦ elim (Option-cases (resolve_public_path os)) [
        | inl no_public ↦ inr (e_fail, rw (e, file_create) (rw no_public), λ h. cc)
        | inr (directory, found) ↦
            rw (e, file_create)
              (rw found (file_open-Tried os given sg self path directory s found (resolved path e)))
      ]
    ]
  where
    resolved : (path : Bytes) → resolve_file_path os file_path ≡ some path → NoNul path
    resolved path e = resolve_file_path-NoNul os file_path path clean e
