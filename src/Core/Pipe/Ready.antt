-- ===== src/Core/Pipe/Ready.antt =====
-- src/core/xps_session.c and src/disk/xps_file.c: an end of a pipe is made ready, or not ready.
use nw_lab.Core.Pipe.{End, Store, put, deref}
use nw_lab.Prelude.{ℕ, ◌≡◌, Bool, some, Exec, done, ◌>>=◌}

-- `source->ready = b`.
unfoldable pub set_source_ready : ℕ → Bool → Store → Exec Store
set_source_ready i b s = do
  source ← deref (s.source_at i)
  done (record s { source_at = put s.source_at i (some (record source { ready = b })) })

unfoldable pub set_sink_ready : ℕ → Bool → Store → Exec Store
set_sink_ready i b s = do
  sink ← deref (s.sink_at i)
  done (record s { sink_at = put s.sink_at i (some (record sink { ready = b })) })

pub set_source_ready_lem :
    (i : ℕ) (b : Bool) (s : Store) (source : End)
    → s.source_at i ≡ some source
    → set_source_ready i b s
      ≡ done (record s { source_at = put s.source_at i (some (record source { ready = b })) })
unfolding set_source_ready
set_source_ready_lem i b s source e = rw e

pub set_sink_ready_lem :
    (i : ℕ) (b : Bool) (s : Store) (sink : End)
    → s.sink_at i ≡ some sink
    → set_sink_ready i b s
      ≡ done (record s { sink_at = put s.sink_at i (some (record sink { ready = b })) })
unfolding set_sink_ready
set_sink_ready_lem i b s sink e = rw e
