-- ===== src/Utils/Extension.antt =====
-- What `get_file_ext` finds.
use nw_lab.Prelude.{
  ℕ, suc, ◌<◌, ◌≡◌, refl, ◌⊎◌, inl, inr, false, Bytes, [], ◌∷◌, ◌++◌, none, some, ◌==◌, length,
  drop, arith, Bool-cases,
}
use nw_lab.Text.{strrchr}
use nw_lab.Utils.{get_file_ext}

-- No `c` in the string.
abbrev pub Lacks : ℕ → Bytes → Type 0
Lacks c [] = Unit {0}
Lacks c (x ∷ s) = ((x == c) ≡ false) × Lacks c s

strrchr-Lacks : (s : Bytes) (c : ℕ) → Lacks c s → strrchr s c ≡ none
unfolding strrchr
strrchr-Lacks [] c h = refl
strrchr-Lacks (x ∷ s) c h = ground (arith, strrchr-Lacks s c h.1)

-- The last occurrence is the one behind which there is none.
strrchr-last :
    (init tail : Bytes) (c : ℕ) → Lacks c tail → strrchr (init ++ (c ∷ tail)) c ≡ some (length init)
unfolding strrchr
strrchr-last [] tail c h = ground (arith, strrchr-Lacks tail c h)
strrchr-last (x ∷ init) tail c h = rw (strrchr-last init tail c h)

-- Where the tail lacks `c`, the last occurrence stands in front of it, if anywhere.
strrchr-front :
    (init tail : Bytes) (c : ℕ)
    → Lacks c tail
    → (strrchr (init ++ tail) c ≡ none)
      ⊎ ((i : ℕ) × (strrchr (init ++ tail) c ≡ some i) × (i < length init))
unfolding strrchr
strrchr-front [] tail c h = inl (strrchr-Lacks tail c h)
strrchr-front (x ∷ init) tail c h = elim (strrchr-front init tail c h) [
  | inr (i, e, l) ↦ inr (suc i, rw e, omega arith)
  | inl e ↦ elim (Bool-cases (x == c)) [
    | inl hit ↦ inr (0, rw (e, strrchr) (rw hit), omega arith)
    | inr miss ↦ inl (rw (e, strrchr) (rw miss))
  ]
]

drop-length : (xs ys : Bytes) → drop (length xs) (xs ++ ys) ≡ ys
drop-length [] ys = refl
drop-length (x ∷ xs) ys = drop-length xs ys

-- The extension of a path is its part from a dot on, the dot included, if that part holds no
-- other dot and no slash, whatever stands in front (also nothing, or a slash).
pub get_file_ext-append :
    (init tail : Bytes)
    → Lacks b'.' tail
    → Lacks b'/' tail
    → get_file_ext (init ++ (b'.' ∷ tail)) ≡ some (b'.' ∷ tail)
unfolding get_file_ext
get_file_ext-append init tail d s = elim (strrchr-front init (b'.' ∷ tail) b'/' (refl, s)) [
  | inl e ↦ ground (arith, strrchr-last init tail b'.' d, e, drop-length init (b'.' ∷ tail))
  | inr (i, e, l) ↦ ground (arith, strrchr-last init tail b'.' d, e, drop-length init (b'.' ∷ tail))
]
