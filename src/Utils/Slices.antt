-- ===== src/Utils/Slices.antt =====
-- `str_from_ptrs` on two pointers into a block.
use nw_lab.Memory.{take-append_le, take_all, drop-append_add}
use nw_lab.Prelude.{
  ℕ, ◌+◌, ◌-◌, ◌≡◌, ◌∙◌, Bool, true, Bytes, ◌++◌, some, done, length, take, drop, length-append,
  arith,
}
use nw_lab.Text.{NoNul, cstr-NoNul}
use nw_lab.Utils.{str_from_ptrs}

slice-append :
    (pre x rest : Bytes) (a b : ℕ)
    → a ≡ length pre
    → b ≡ a + length x
    → take (b - a) (drop a (pre ++ (x ++ rest))) ≡ x
slice-append pre x rest a b ea eb =
    let e : b - a ≡ length x = omega arith in
    let e' : a ≡ length pre + 0 = omega arith in
    rw (e, e', drop-append_add 0 pre (x ++ rest))
      (take-append_le (length x) x rest (omega arith) ∙ take_all (length x) x (omega arith))

-- Two pointers around a piece without NUL give that piece.
pub str_from_ptrs-slice :
    (pre x rest : Bytes) (a b : ℕ)
    → NoNul x
    → a ≡ length pre
    → b ≡ a + length x
    → str_from_ptrs true (pre ++ (x ++ rest)) (some a) (some b) ≡ done (some x)
unfolding str_from_ptrs
str_from_ptrs-slice pre x rest a b n ea eb = ground (
  arith,
  slice-append pre x rest a b ea eb,
  cstr-NoNul x n,
  length-append pre (x ++ rest),
  length-append x rest,
)

-- The same, for a block that is known to be that.
pub str_from_ptrs_at :
    (given : Bool) (block pre x rest : Bytes) (a b : ℕ)
    → given ≡ true
    → block ≡ pre ++ (x ++ rest)
    → NoNul x
    → a ≡ length pre
    → b ≡ a + length x
    → str_from_ptrs given block (some a) (some b) ≡ done (some x)
str_from_ptrs_at given block pre x rest a b g e n ea eb =
    rw (g, e) (str_from_ptrs-slice pre x rest a b n ea eb)
