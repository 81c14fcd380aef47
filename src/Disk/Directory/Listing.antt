-- ===== src/Disk/Directory/Listing.antt =====
-- src/disk/xps_directory.c: which page is made of a directory.
use nw_lab.Buffer.{Buffer, buffer_create, contents, IsBuffer}
use nw_lab.Disk.Directory.{
  System, append_html, directory_browsing, entries, entry, finish_page, list_entries, page_foot,
  page_head, page_size,
}
use nw_lab.Memory.{Alloc, take_all, take-append_le}
use nw_lab.Prelude.{
  ℕ, suc, ◌+◌, ◌-◌, ◌≤◌, ◌<◌, ◌≡◌, refl, sym, ap, ◌∙◌, ◌⊎◌, inl, inr, true, Bytes, List, [], ◌∷◌,
  ◌++◌, Option, none, some, done, Mallocs, ltb, ltb→lt, lt→ltb, length, take, arith, Bool-cases,
  Option-cases, >>=-done, append_assoc, append-nil, length-append,
}

-- The rows of the entries that are shown, in the order of the directory.
abbrev keep : Option Bytes → List Bytes → List Bytes
keep none rows = rows
keep (some row) rows = row ∷ rows

unfoldable pub rows : System → (dir_path pathname : Bytes) → List Bytes → List Bytes
rows sys dir_path pathname [] = []
rows sys dir_path pathname (name ∷ names) =
    keep (entry sys true dir_path pathname name) (rows sys dir_path pathname names)

abbrev pub joined : List Bytes → Bytes
joined [] = []
joined (row ∷ rows) = row ++ joined rows

-- `n` rows fit into the page behind `buff`, and one more, if there is one, does not.
abbrev pub MostFit : (buff : Bytes) → List Bytes → ℕ → Type 0
MostFit buff rows n =
    (n ≤ length rows)
    × (length (buff ++ joined (take n rows)) < page_size)
    × ((n ≡ length rows) ⊎ (page_size ≤ length (buff ++ joined (take (suc n) rows))))

append_html_lem :
    (buff text : Bytes)
    → length buff < page_size
    → ((length (buff ++ text) < page_size) × (append_html buff text ≡ done (some (buff ++ text))))
      ⊎ ((page_size ≤ length (buff ++ text)) × (append_html buff text ≡ done none))
unfolding append_html
append_html_lem buff text low =
    let asserted = lt→ltb (length buff) page_size low in
    elim (Bool-cases (ltb (length text) (page_size - length buff))) [
      | inl fits ↦ inl (
        omega (arith, length-append buff text, ltb→lt (length text) (page_size - length buff) fits),
        rw (asserted, fits),
      )
      | inr big ↦
          let over : page_size - length buff ≤ length text = ground arith in
          inr (omega (arith, length-append buff text), rw (asserted, big))
    ]

module _ (sys : System) (given : Mallocs) (dir_path pathname : Bytes)
    (all : (n : ℕ) → given n ≡ true) where
  entries-MostFit :
      (i : ℕ) (names : List Bytes) (buff : Bytes)
      → length buff < page_size
      → (n : ℕ) × MostFit buff (rows sys dir_path pathname names) n
        × (entries sys given dir_path pathname i names buff
            ≡ done (buff ++ joined (take n (rows sys dir_path pathname names))))
  unfolding entries rows
  entries-MostFit i [] buff low =
      (0, (omega arith, rw (append-nil buff) low, inl refl), rw (append-nil buff))
  entries-MostFit i (name ∷ names) buff low =
      let later = entries-MostFit (i + 1) names in
      elim (Option-cases (entry sys true dir_path pathname name)) [
        | inl skipped ↦
            let (n, most, run) = later buff low in
            (n, rw skipped most, rw (all i, skipped, entries) run)
        | inr (row, shown) ↦ elim (append_html_lem buff row low) [
          | inl (fits, appended) ↦
              let (n, (le, short, most), run) = later (buff ++ row) fits in
              (
                suc n,
                rw shown (
                  omega arith,
                  rw (← assoc buff row n) short,
                  elim most [
                    | inl whole ↦ inl (ap suc whole)
                    | inr over ↦ inr (rw (← assoc buff row (suc n)) over)
                  ],
                ),
                rw (all i, shown, appended, entries) (run ∙ ap done (assoc buff row n)),
              )
          | inr (big, refused) ↦ (
            0,
            rw shown (omega arith, rw (append-nil buff) low, inr (rw (append-nil row) big)),
            rw (all i, shown, refused, entries) (ap done (sym (append-nil buff))),
          )
        ]
      ]
    where
      assoc :
          (buff row : Bytes) (n : ℕ)
          → (buff ++ row) ++ joined (take n (rows sys dir_path pathname names))
            ≡ buff ++ (row ++ joined (take n (rows sys dir_path pathname names)))
      assoc buff row n = append_assoc buff row _

-- What becomes of a page behind its foot: a buffer that holds it, or NULL where it has no room.
abbrev pub IsPage : (buff : Bytes) → Option Buffer → Type 0
IsPage buff r =
    ((page_size ≤ length (buff ++ page_foot)) × (r ≡ none))
    ⊎ ((b : Buffer) × (r ≡ some b)
        × IsBuffer b
        × (contents b ≡ buff ++ page_foot)
        × (length (buff ++ page_foot) < page_size))

buffer_create_given :
    (a : Alloc) (size len : ℕ) (block : Bytes)
    → a.struct ≡ true
    → 0 < size
    → buffer_create a size len (some block)
      ≡ done (some (record { size = size; len = len; pos = 0; data_block = block }))
unfolding buffer_create
buffer_create_given a size len block struct pos = rw (lt→ltb 0 size pos, struct)

finish_page-IsPage :
    (a : Alloc) (buff : Bytes)
    → a.struct ≡ true
    → length buff < page_size
    → (r : Option Buffer) × (finish_page a buff ≡ done r) × IsPage buff r
unfolding finish_page
finish_page-IsPage a buff struct low = elim (append_html_lem buff page_foot low) [
  | inr (big, refused) ↦ (none, rw (refused, finish_page) refl, inl (big, refl))
  | inl (fits, appended) ↦
      let page : Bytes = buff ++ page_foot in
      let b : Buffer = record {
        size = length page + 1;
        len = length page;
        pos = 0;
        data_block = page ++ (0 ∷ []);
      } in
      (
        some b,
        >>=-done _ appended
            ∙ buffer_create_given a (length page + 1) (length page) _ struct (omega arith),
        inr (
          b,
          refl,
          record { len_le = omega arith; size_le = omega (arith, length-append page (0 ∷ [])) },
          take-append_le (length page) page (0 ∷ []) (omega arith) ∙ take_all _ page (omega arith),
          fits,
        ),
      )
]

-- Where the allocations succeed and the directory can be opened: the head of the page has no room in
-- 100000 bytes, and there is no page; or the page has its head, the rows of as many of the entries that
-- are shown as there is room for, in the order of the directory, and its foot. It becomes a well-formed
-- buffer that holds exactly this text, or there is no page where the foot has no room.
pub directory_browsing-IsPage :
    (sys : System) (a : Alloc) (given : Mallocs) (dir_path pathname : Bytes) (names : List Bytes)
    → ((n : ℕ) → given n ≡ true)
    → a.struct ≡ true
    → sys.opendir dir_path ≡ some names
    → let head = page_head pathname in
      let all_rows = rows sys dir_path pathname names in
      (r : Option Buffer) × (directory_browsing sys a given dir_path pathname ≡ done r)
      × (((page_size ≤ length head) × (r ≡ none))
          ⊎ ((n : ℕ) × MostFit head all_rows n × IsPage (head ++ joined (take n all_rows)) r))
unfolding directory_browsing list_entries
directory_browsing-IsPage sys a given dir_path pathname names all struct opens =
    elim (append_html_lem [] (page_head pathname) (omega arith)) [
      | inr (big, refused) ↦ (none, rw (all 0, refused, directory_browsing) refl, inl (big, refl))
      | inl (fits, appended) ↦
          let (n, most, run) =
            entries-MostFit sys given dir_path pathname all 1 names (page_head pathname) fits in
          let (r, finished, page) =
            finish_page-IsPage a
              (page_head pathname ++ joined (take n (rows sys dir_path pathname names))) struct
              most.1 in
          let listed : list_entries sys a given dir_path pathname (page_head pathname) ≡ done r =
            rw (opens, list_entries) (>>=-done _ run ∙ finished) in
          (r, rw (all 0, appended, directory_browsing) listed, inr (n, most, page))
    ]
