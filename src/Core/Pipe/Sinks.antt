-- ===== src/Core/Pipe/Sinks.antt =====
-- src/core/xps_pipe.c: the sinks of pipes, freed.
use nw_lab.Core.Pipe.{End, Store, put, sink_destroy}
use nw_lab.Core.Pipe.Links.{
  Mutual-part, Mutual-same, link_of-put, link_of-kept, linked_end, put_at, sink_of, pipe_of_sink,
  Linked,
}
use nw_lab.Prelude.{ℕ, ◌≡◌, refl, sym, inl, inr, none, some, done, Option-cases}

-- A sink that is freed is forgotten by its pipe, if it has one, and all links stay mutual. The pipe
-- was not freed before.
pub sink_destroy-Linked :
    (s : Store) (i : ℕ) (sink : End)
    → Linked s
    → s.sink_at i ≡ some sink
    → (s' : Store) × (sink_destroy i s ≡ done s') × Linked s' × (s'.sink_at i ≡ none)
unfolding sink_destroy
sink_destroy-Linked s i sink l at_i = elim (Option-cases sink.pipe) [
  | inl e ↦ (
    record s { sink_at = put s.sink_at i none },
    rw (at_i, sink_destroy) (rw e),
    record {
      sinks =
          Mutual-same _ _ _ _ l.sinks (λ p. refl)
            (link_of-kept (λ x. x.pipe) s.sink_at i none (rw at_i (sym e)));
      sources = l.sources;
    },
    put_at s.sink_at i none,
  )
  | inr (p, e) ↦
      let back = (l.sinks p i).1 (rw at_i e) in
      let (pipe, at_p, has) = linked_end (λ x. x.sink) (s.pipe_at p) back in
      (
        record s {
          pipe_at = put s.pipe_at p (some (record pipe { sink = none }));
          sink_at = put s.sink_at i none;
        },
        rw (at_i, sink_destroy) (rw e (rw at_p)),
        record {
          sinks =
              Mutual-same _ _ _ _ (Mutual-part (sink_of s) (pipe_of_sink s) p i l.sinks back)
                (link_of-put (λ x. x.sink) s.pipe_at p _)
                (link_of-put (λ x. x.pipe) s.sink_at i none);
          sources =
              Mutual-same _ _ _ _ l.sources (link_of-kept (λ x. x.source) s.pipe_at p _ (rw at_p))
                (λ j. refl);
        },
        put_at s.sink_at i none,
      )
]
