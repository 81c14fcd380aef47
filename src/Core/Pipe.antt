-- ===== src/Core/Pipe.antt =====
-- src/core/xps_pipe.c and src/core/xps_pipe.h: pipes with their sources and sinks.
--
-- The three kinds of structs refer to each other, so they live in a store: an address is a number,
-- and a struct that was freed is no longer there, so that every access to it is a fault.
pub mod Transfer
pub mod Links
pub mod Ready
pub mod Sources
pub mod Sinks
pub mod Flow
pub mod Freed
pub mod Stored
pub mod Keeps
pub mod Readied
pub mod Creates
pub mod Tests
use nw_lab.Buffer.Lists.{BufferList}
use nw_lab.Prelude.{
  ℕ, suc, ◌+◌, Bool, true, false, List, [], ◌∷◌, Option, none, some, Exec, done, fault, Mallocs,
  ◌>>=◌, ◌>>◌, assert, ltb, ◌==◌, if◌then◌else◌,
}
use nw_lab.Status.{Code, ok, e_fail}
use nw_lab.Vec.{vec_push}

-- `xps_pipe_s`, its `core` apart, of which there is one.
pub record Pipe : Type 0 where
  pub source : Option ℕ
  pub sink : Option ℕ
  pub buff_list : BufferList
  pub buff_thresh : ℕ

-- `xps_pipe_source_s` and `xps_pipe_sink_s`, which have the same fields. The callbacks are known
-- by `owner`, the struct behind `ptr`.
pub record End : Type 0 where
  pub pipe : Option ℕ
  pub ready : Bool
  pub active : Bool
  pub owner : ℕ

-- The structs by their addresses, the next unused address, and the list `pipes` of the core with
-- its number of NULLs.
pub record Store : Type 0 where
  pub pipe_at : ℕ → Option Pipe
  pub source_at : ℕ → Option End
  pub sink_at : ℕ → Option End
  pub next : ℕ
  pub pipes : List (Option ℕ)
  pub n_null_pipes : ℕ

-- A map with one place changed.
abbrev pub put {ℓ} : {A : Type ℓ} → (ℕ → Option A) → ℕ → Option A → ℕ → Option A
put f i v j = if j == i then v else f j

-- What a pointer refers to.
abbrev pub deref {ℓ} : {A : Type ℓ} → Option A → Exec A
deref none = fault
deref (some a) = done a

unfoldable pub is_readable : Pipe → Bool
is_readable pipe = ltb 0 pipe.buff_list.len

unfoldable pub is_writable : Pipe → Bool
is_writable pipe = ltb pipe.buff_list.len pipe.buff_thresh

abbrev new_end : ℕ → End
new_end owner = record { pipe = none; ready = false; active = false; owner = owner }

-- `xps_pipe_source_create`: the address, NULL where `malloc` fails.
unfoldable pub source_create : (given : Bool) → (owner : ℕ) → Store → Option ℕ × Store
source_create given owner s =
    if given
    then (
      some s.next,
      record s { source_at = put s.source_at s.next (some (new_end owner)); next = suc s.next },
    )
    else (none, s)

unfoldable pub sink_create : (given : Bool) → (owner : ℕ) → Store → Option ℕ × Store
sink_create given owner s =
    if given
    then (
      some s.next,
      record s { sink_at = put s.sink_at s.next (some (new_end owner)); next = suc s.next },
    )
    else (none, s)

unfoldable pub attach_source : (pipe source : ℕ) → Store → Exec (Code × Store)
attach_source p i s = do
  pipe ← deref (s.pipe_at p)
  elim pipe.source [
    | some _ ↦ done (e_fail, s)
    | none ↦ do
      source ← deref (s.source_at i)
      done (
        ok,
        record s {
          pipe_at = put s.pipe_at p (some (record pipe { source = some i }));
          source_at = put s.source_at i (some (record source { pipe = some p }));
        },
      )
  ]

unfoldable pub attach_sink : (pipe sink : ℕ) → Store → Exec (Code × Store)
attach_sink p i s = do
  pipe ← deref (s.pipe_at p)
  elim pipe.sink [
    | some _ ↦ done (e_fail, s)
    | none ↦ do
      sink ← deref (s.sink_at i)
      done (
        ok,
        record s {
          pipe_at = put s.pipe_at p (some (record pipe { sink = some i }));
          sink_at = put s.sink_at i (some (record sink { pipe = some p }));
        },
      )
  ]

unfoldable pub detach_source : (pipe : ℕ) → Store → Exec (Code × Store)
detach_source p s = do
  pipe ← deref (s.pipe_at p)
  elim pipe.source [
    | none ↦ done (e_fail, s)
    | some i ↦ do
      source ← deref (s.source_at i)
      done (
        ok,
        record s {
          pipe_at = put s.pipe_at p (some (record pipe { source = none }));
          source_at = put s.source_at i (some (record source { pipe = none }));
        },
      )
  ]

unfoldable pub detach_sink : (pipe : ℕ) → Store → Exec (Code × Store)
detach_sink p s = do
  pipe ← deref (s.pipe_at p)
  elim pipe.sink [
    | none ↦ done (e_fail, s)
    | some i ↦ do
      sink ← deref (s.sink_at i)
      done (
        ok,
        record s {
          pipe_at = put s.pipe_at p (some (record pipe { sink = none }));
          sink_at = put s.sink_at i (some (record sink { pipe = none }));
        },
      )
  ]

-- `source->active = true`.
activate_source : ℕ → Store → Exec Store
activate_source i s = do
  source ← deref (s.source_at i)
  done (record s { source_at = put s.source_at i (some (record source { active = true })) })

activate_sink : ℕ → Store → Exec Store
activate_sink i s = do
  sink ← deref (s.sink_at i)
  done (record s { sink_at = put s.sink_at i (some (record sink { active = true })) })

abbrev new_pipe : ℕ → Pipe
new_pipe buff_thresh = record {
  source = none;
  sink = none;
  buff_list = record { list = []; len = 0 };
  buff_thresh = buff_thresh;
}

-- The pipe is put into the store and into the core's list, and its two ends are attached, where
-- the codes are not looked at.
link_pipe : (grown : Bool) → (buff_thresh source sink : ℕ) → Store → Exec (Option ℕ × Store)
unfolding attach_source attach_sink activate_source activate_sink
link_pipe grown buff_thresh source sink s = do
  let p = s.next
  r1 ← attach_source p source (record s {
    pipe_at = put s.pipe_at p (some (new_pipe buff_thresh));
    next = suc p;
    pipes = vec_push grown s.pipes (some p);
  })
  r2 ← attach_sink p sink r1.1
  s3 ← activate_source source r2.1
  s4 ← activate_sink sink s3
  done (some p, s4)

-- `given` answers the allocations of the pipe and of its list, `grown` the growth of the core's.
unfoldable pub pipe_create :
    (given : Mallocs) (grown : Bool)
    → (buff_thresh source sink : ℕ) → Store
    → Exec (Option ℕ × Store)
unfolding link_pipe
pipe_create given grown buff_thresh source sink s = do
  assert (ltb 0 buff_thresh)
  elim (given 0) [
    | false ↦ done (none, s)
    | true ↦ elim (given 1) [
      | false ↦ done (none, s)
      | true ↦ link_pipe grown buff_thresh source sink s
    ]
  ]

-- The first place of the list that holds the pipe becomes NULL; whether there is one.
unfoldable pub mark_null : ℕ → List (Option ℕ) → Bool × List (Option ℕ)
mark_null p [] = (false, [])
mark_null p (none ∷ ps) = let (found, rest) = mark_null p ps in (found, none ∷ rest)
mark_null p (some q ∷ ps) =
    let (found, rest) = mark_null p ps in
    if q == p then (true, none ∷ ps) else (found, some q ∷ rest)

unfoldable pub pipe_destroy : (pipe : ℕ) → Store → Exec Store
unfolding mark_null
pipe_destroy p s = do
  pipe ← deref (s.pipe_at p)
  let (found, pipes) = mark_null p s.pipes
  done (record s {
    pipe_at = put s.pipe_at p none;
    pipes = pipes;
    n_null_pipes = if found then s.n_null_pipes + 1 else s.n_null_pipes;
  })

-- The pipe of an end that is freed forgets it.
forget_source : Option ℕ → Store → Exec Store
forget_source none s = done s
forget_source (some p) s = do
  pipe ← deref (s.pipe_at p)
  done (record s { pipe_at = put s.pipe_at p (some (record pipe { source = none })) })

forget_sink : Option ℕ → Store → Exec Store
forget_sink none s = done s
forget_sink (some p) s = do
  pipe ← deref (s.pipe_at p)
  done (record s { pipe_at = put s.pipe_at p (some (record pipe { sink = none })) })

unfoldable pub source_destroy : (source : ℕ) → Store → Exec Store
unfolding forget_source
source_destroy i s = do
  source ← deref (s.source_at i)
  s1 ← forget_source source.pipe s
  done (record s1 { source_at = put s1.source_at i none })

unfoldable pub sink_destroy : (sink : ℕ) → Store → Exec Store
unfolding forget_sink
sink_destroy i s = do
  sink ← deref (s.sink_at i)
  s1 ← forget_sink sink.pipe s
  done (record s1 { sink_at = put s1.sink_at i none })
