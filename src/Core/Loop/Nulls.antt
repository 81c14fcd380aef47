-- ===== src/Core/Loop/Nulls.antt =====
-- src/core/xps_loop.c: `filter_nulls`.
use nw_lab.Core.Loop.Marks.{nulls}
use nw_lab.Prelude.{
  ℕ, ◌≤◌, ◌≡◌, refl, sym, ap, ◌∙◌, true, List, [], ◌∷◌, Option, Mallocs, ltb, if◌then◌else◌,
  Bool-cases, inl, inr, arith,
}
use nw_lab.Vec.{vec_filter_null, present, all_some, vec_filter_null_lem}

-- A list of the core with its number of NULLs.
pub record Slots : Type 0 where
  pub items : List (Option ℕ)
  pub n_null : ℕ

-- The lists of the core and of its loop.
pub record CoreLists : Type 0 where
  pub events : Slots
  pub listeners : Slots
  pub connections : Slots
  pub pipes : Slots
  pub sessions : Slots

-- More than `DEFAULT_NULLS_THRESH`, 32, NULLs are removed.
unfoldable pub filter_slots : Mallocs → Slots → Slots
filter_slots grown slots =
    if ltb 32 slots.n_null
    then record { items = vec_filter_null grown slots.items; n_null = 0 }
    else slots

-- `grown i` answers the growth of the temporary vector of list `i`.
unfoldable pub filter_nulls : (grown : ℕ → Mallocs) → CoreLists → CoreLists
unfolding filter_slots
filter_nulls grown core = record {
  events = filter_slots (grown 0) core.events;
  listeners = filter_slots (grown 1) core.listeners;
  connections = filter_slots (grown 2) core.connections;
  pipes = filter_slots (grown 3) core.pipes;
  sessions = filter_slots (grown 4) core.sessions;
}

-- The number of NULLs is right.
abbrev pub Counted : Slots → Type 0
Counted slots = slots.n_null ≡ nulls slots.items

pub record AllCounted (core : CoreLists) : Type 0 where
  pub events : Counted core.events
  pub listeners : Counted core.listeners
  pub connections : Counted core.connections
  pub pipes : Counted core.pipes
  pub sessions : Counted core.sessions

-- The same structs in the same order, a number of NULLs that is right, and no more than 32 of them.
abbrev pub Filtered : (slots out : Slots) → Type 0
Filtered slots out = Counted out × (present out.items ≡ present slots.items) × (out.n_null ≤ 32)

nulls-all_some : (xs : List ℕ) → nulls (all_some xs) ≡ 0
nulls-all_some [] = refl
nulls-all_some (x ∷ xs) = nulls-all_some xs

present-all_some : (xs : List ℕ) → present (all_some xs) ≡ xs
present-all_some [] = refl
present-all_some (x ∷ xs) = ap (◌∷◌ x) (present-all_some xs)

filter_slots-Filtered :
    (grown : Mallocs) (slots : Slots)
    → ((n : ℕ) → grown n ≡ true)
    → Counted slots
    → Filtered slots (filter_slots grown slots)
unfolding filter_slots
filter_slots-Filtered grown slots g counted = elim (Bool-cases (ltb 32 slots.n_null)) [
  | inl many ↦
      let only = vec_filter_null_lem grown slots.items g in
      rw (many, filter_slots)
        (
          sym (ap nulls only ∙ nulls-all_some (present slots.items)),
          ap present only ∙ present-all_some (present slots.items),
          omega arith,
        )
  | inr few ↦ rw (few, filter_slots) (counted, refl, ground arith)
]

-- Where the temporary vectors can grow and the five numbers of NULLs are right, the removal of NULLs
-- keeps every struct of the lists of events, listeners, connections, pipes and sessions in its order,
-- keeps the numbers right, and leaves at most 32 NULLs in each list.
pub filter_nulls-Filtered :
    (grown : ℕ → Mallocs) (core : CoreLists)
    → ((i n : ℕ) → grown i n ≡ true)
    → AllCounted core
    → let out = filter_nulls grown core in
      Filtered core.events out.events
      × Filtered core.listeners out.listeners
      × Filtered core.connections out.connections
      × Filtered core.pipes out.pipes
      × Filtered core.sessions out.sessions
unfolding filter_nulls
filter_nulls-Filtered grown core g counted = (
  filter_slots-Filtered (grown 0) core.events (g 0) counted.events,
  filter_slots-Filtered (grown 1) core.listeners (g 1) counted.listeners,
  filter_slots-Filtered (grown 2) core.connections (g 2) counted.connections,
  filter_slots-Filtered (grown 3) core.pipes (g 3) counted.pipes,
  filter_slots-Filtered (grown 4) core.sessions (g 4) counted.sessions,
)
