-- ===== src/Core/Loop/Sound.antt =====
-- src/core/xps_core.h: stores whose pipes are listed once.
use nw_lab.Core.Loop.Marks.{Has, Unique}
use nw_lab.Core.Pipe.{Pipe, Store}
use nw_lab.Core.Pipe.Links.{Linked}
use nw_lab.Prelude.{ℕ, ◌≡◌, some}

-- The links are mutual, and the list of pipes holds pipes that are there, each once.
pub record IsSound (s : Store) : Type 0 where
  pub linked : Linked s
  pub unique : Unique s.pipes
  pub listed : (p : ℕ) → Has p s.pipes → (pipe : Pipe) × (s.pipe_at p ≡ some pipe)
