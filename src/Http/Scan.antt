-- ===== src/Http/Scan.antt =====
-- The loop that both parsers of src/http/xps_http.c share: `for (i = 0; i < len; i++, p_ch++)` around
-- a `switch` on the parser state.
pub mod Safety
pub mod More
use nw_lab.Http.State.{ParserState, h_start}
use nw_lab.Prelude.{
  ℕ, zero, suc, ◌+◌, [], ◌∷◌, Bytes, Bool, ◌&&◌, Exec, done, fault, ◌>>=◌, drop, leb, bit_or,
}
use nw_lab.Status.{Code, e_again, e_fail}

-- What one character does: fail, go on in a state, or return a code at this character. `broken`
-- is arithmetic on a NULL pointer.
pub data Step (M : Type 0) : Type 0 where
  refuse : Step M
  go : ParserState → M → Step M
  stop : Code → M → Step M
  broken : Step M

-- How the loop ends: all characters used up, failure, or a code at offset `p_ch`.
pub data Outcome (M : Type 0) : Type 0 where
  again : ParserState → M → Outcome M
  failed : M → Outcome M
  stopped : Code → ℕ → M → Outcome M

-- `n` characters are left for the loop; `rest` is the block from `p` on. To read where the block
-- has ended is a fault.
unfoldable pub scan :
    {M : Type 0}
    → (ParserState → ℕ → ℕ → M → Step M)
    → (n p : ℕ) → Bytes
    → ParserState
    → M
    → Exec (Outcome M)
scan step zero p rest st m = done (again st m)
scan step (suc n) p [] st m = fault
scan step (suc n) p (ch ∷ rest) st m = elim (step st p ch m) [
  | refuse ↦ done (failed m)
  | go st' m' ↦ scan step n (p + 1) rest st' m'
  | stop c m' ↦ done (stopped c p m')
  | broken ↦ fault
]

-- What a parser leaves behind: its code, the new `parser_state`, the new `buff->pos`, the marks.
pub record Parse (M : Type 0) : Type 0 where
  pub code : Code
  pub state : ParserState
  pub pos : ℕ
  pub marks : M

-- The writes of the `return` that is reached. Only success moves `buff->pos`; a failure leaves
-- the parser state as it was.
abbrev pub conclude : {M : Type 0} → ParserState → ℕ → Outcome M → Parse M
conclude st pos (again st' m) = record { code = e_again; state = st'; pos = pos; marks = m }
conclude st pos (failed m) = record { code = e_fail; state = st; pos = pos; marks = m }
conclude st pos (stopped c p m) = record { code = c; state = h_start; pos = p; marks = m }

abbrev pub parse_with :
    {M : Type 0}
    → (ParserState → ℕ → ℕ → M → Step M)
    → (len pos : ℕ) → Bytes
    → ParserState
    → M
    → Exec (Parse M)
parse_with step len pos block st m =
    scan step len pos (drop pos block) st m >>= λ o. done (conclude st pos o)

abbrev pub within : ℕ → ℕ → ℕ → Bool
within lo hi c = leb lo c && leb c hi

-- `ch | 0x20`.
abbrev pub lower : ℕ → ℕ
lower ch = bit_or ch 0x20
