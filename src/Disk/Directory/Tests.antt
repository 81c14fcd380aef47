-- ===== src/Disk/Directory/Tests.antt =====
-- The listing of a directory with one file.
use nw_lab.Buffer.{Buffer}
use nw_lab.Disk.Directory.{
  System, directory_browsing, directory_size_label, entry, href_prefix, mtime_text, page_head,
  page_size, row,
}
use nw_lab.Disk.Directory.Listing.{IsPage, MostFit, directory_browsing-IsPage, joined, rows}
use nw_lab.Memory.{Alloc}
use nw_lab.Prelude.{
  ℕ, ◌≤◌, ◌≡◌, refl, ◌⊎◌, true, Bytes, List, [], ◌∷◌, ◌++◌, Option, none, some, done, codes, length,
  take,
}
use nw_lab.Text.{strcmp_eq}
use nw_lab.Utils.{regular}

abbrev names : List Bytes
names = codes "." ∷ codes "a.txt" ∷ []

abbrev sys : System
sys = record {
  opendir = λ path. some names;
  stat = λ path. some (record { kind = regular; size = 2048; mtime = 0 });
  date = λ time. some (codes "1970-01-01 00:00:00");
  kilobytes = λ size. codes "2.00 KB";
}

abbrev memory : Alloc
memory = record { struct = true; block = λ n. none }

-- One row.
abbrev file_row : Bytes
file_row =
    codes
      "<tr><td><a href='/files/a.txt'>a.txt</a></td><td>1970-01-01 00:00:00</td><td>2.00 KB</td></tr>\n"

rows_lem : rows sys (codes "/srv/files") (codes "/files/") names ≡ file_row ∷ []
unfolding rows entry row href_prefix strcmp_eq mtime_text directory_size_label
rows_lem = refl

directory_browsing-IsPage_example :
    let head = page_head (codes "/files/") in
    let all_rows = rows sys (codes "/srv/files") (codes "/files/") names in
    (r : Option Buffer) × (directory_browsing sys memory
        (λ n. true)
        (codes "/srv/files")
        (codes "/files/")
      ≡ done r)
    × (((page_size ≤ length head) × (r ≡ none))
        ⊎ ((n : ℕ) × MostFit head all_rows n × IsPage (head ++ joined (take n all_rows)) r))
directory_browsing-IsPage_example =
    directory_browsing-IsPage sys memory (λ n. true) (codes "/srv/files") (codes "/files/") names
      (λ n. refl) refl refl
