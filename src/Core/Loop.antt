-- ===== src/Core/Loop.antt =====
-- src/core/xps_loop.c: one pass of the event loop over the pipes, and the removal of NULLs.
--
-- The callbacks of the ends of pipes are an interface: a state that holds the store of the pipes, and
-- what the four kinds of callbacks do to it.
pub mod Sound
pub mod Marks
pub mod Nulls
pub mod Events
pub mod Tests
use nw_lab.Core.Pipe.{Pipe, Store, put, deref, is_readable, is_writable, pipe_destroy}
use nw_lab.Prelude.{
  ℕ, zero, suc, ◌+◌, Bool, true, false, ◌&&◌, ◌||◌, List, [], ◌∷◌, Option, none, some, Exec, done,
  ◌>>=◌, if◌then◌else◌, get_elem?,
}

pub record System : Type 1 where
  pub State : Type 0
  pub store : State → Store
  pub with_store : Store → State → State
  pub source_handler : ℕ → State → Exec State
  pub source_close : ℕ → State → Exec State
  pub sink_handler : ℕ → State → Exec State
  pub sink_close : ℕ → State → Exec State

-- The source of a pipe that is ready to write, where the pipe takes more.
unfoldable pub source_due : Pipe → Store → Exec (Option ℕ)
source_due pipe s = elim pipe.source [
  | none ↦ done none
  | some i ↦ deref (s.source_at i) >>= λ source.
      done (if source.ready && is_writable pipe then some i else none)
]

-- The sink of a pipe that is ready to read, where the pipe holds something.
unfoldable pub sink_due : Pipe → Store → Exec (Option ℕ)
sink_due pipe s = elim pipe.sink [
  | none ↦ done none
  | some i ↦
      deref (s.sink_at i) >>= λ sink. done (if sink.ready && is_readable pipe then some i else none)
]

-- A source whose pipe has no sink, and a sink whose pipe has no source and nothing left.
unfoldable pub lone_source : Pipe → Option ℕ
lone_source pipe = elim pipe.sink [ none ↦ pipe.source | some j ↦ none ]

unfoldable pub lone_sink : Pipe → Option ℕ
lone_sink pipe = elim pipe.source [
  | none ↦ if is_readable pipe then none else pipe.sink
  | some i ↦ none
]

abbrev pub is_some : Option ℕ → Bool
is_some none = false
is_some (some i) = true

-- `source->active = false`.
unfoldable pub stop_source : ℕ → Store → Exec Store
stop_source i s = do
  source ← deref (s.source_at i)
  done (record s { source_at = put s.source_at i (some (record source { active = false })) })

unfoldable pub stop_sink : ℕ → Store → Exec Store
stop_sink i s = do
  sink ← deref (s.sink_at i)
  done (record s { sink_at = put s.sink_at i (some (record sink { active = false })) })

-- Whether some pipe of the list calls for another pass.
unfoldable pub any_due : List (Option ℕ) → Store → Exec Bool
any_due [] s = done false
any_due (none ∷ ps) s = any_due ps s
any_due (some p ∷ ps) s = do
  pipe ← deref (s.pipe_at p)
  source ← source_due pipe s
  sink ← sink_due pipe s
  elim (is_some source || is_some sink || is_some (lone_source pipe) || is_some (lone_sink pipe)) [
    | true ↦ done true
    | false ↦ any_due ps s
  ]

module _ (sys : System) where
  unfoldable pub call : (ℕ → sys.State → Exec sys.State) → Option ℕ → sys.State → Exec sys.State
  call callback none w = done w
  call callback (some i) w = callback i w

  unfoldable pub fill : (pipe : ℕ) → sys.State → Exec sys.State
  fill p w = do
    pipe ← deref ((sys.store w).pipe_at p)
    i ← source_due pipe (sys.store w)
    call sys.source_handler i w

  unfoldable pub drain : (pipe : ℕ) → sys.State → Exec sys.State
  drain p w = do
    pipe ← deref ((sys.store w).pipe_at p)
    i ← sink_due pipe (sys.store w)
    call sys.sink_handler i w

  unfoldable pub stop_source_in : ℕ → sys.State → Exec sys.State
  stop_source_in i w = stop_source i (sys.store w) >>= λ s. sys.source_close i (sys.with_store s w)

  unfoldable pub stop_sink_in : ℕ → sys.State → Exec sys.State
  stop_sink_in i w = stop_sink i (sys.store w) >>= λ s. sys.sink_close i (sys.with_store s w)

  unfoldable pub close_source : (pipe : ℕ) → sys.State → Exec sys.State
  close_source p w =
      deref ((sys.store w).pipe_at p) >>= λ pipe. call stop_source_in (lone_source pipe) w

  unfoldable pub close_sink : (pipe : ℕ) → sys.State → Exec sys.State
  close_sink p w = deref ((sys.store w).pipe_at p) >>= λ pipe. call stop_sink_in (lone_sink pipe) w

  unfoldable pub serve_pipe : (pipe : ℕ) → sys.State → Exec sys.State
  serve_pipe p w = do w1 ← fill p w; w2 ← drain p w1; w3 ← close_source p w2; close_sink p w3

  -- A pipe without ends is destroyed.
  unfoldable pub handle_pipe : (pipe : ℕ) → sys.State → Exec sys.State
  handle_pipe p w = deref ((sys.store w).pipe_at p) >>= λ pipe.
      elim (is_some pipe.source || is_some pipe.sink) [
        | false ↦ pipe_destroy p (sys.store w) >>= λ s. done (sys.with_store s w)
        | true ↦ serve_pipe p w
      ]

  unfoldable pub handle_slot : Option ℕ → sys.State → Exec sys.State
  handle_slot none w = done w
  handle_slot (some p) w = handle_pipe p w

  -- The pass from index `i` on, `none` if the fuel runs out before the end of the list.
  unfoldable pub handle_from : (fuel i : ℕ) → sys.State → Exec (Option sys.State)
  handle_from zero i w = elim (get_elem? (sys.store w).pipes i) [
    | none ↦ done (some w)
    | some slot ↦ done none
  ]
  handle_from (suc fuel) i w = elim (get_elem? (sys.store w).pipes i) [
    | none ↦ done (some w)
    | some slot ↦ handle_slot slot w >>= λ w1. handle_from fuel (i + 1) w1
  ]

  unfoldable pub handle_pipes : (fuel : ℕ) → sys.State → Exec (Option (Bool × sys.State))
  handle_pipes fuel w = handle_from fuel 0 w >>= λ o. elim o [
    | none ↦ done none
    | some w1 ↦ any_due (sys.store w1).pipes (sys.store w1) >>= λ ready. done (some (ready, w1))
  ]
