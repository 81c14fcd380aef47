-- ===== src/Core/Pipe/Sources.antt =====
-- src/core/xps_pipe.c: the sources of pipes, freed.
use nw_lab.Core.Pipe.{End, Store, put, source_destroy}
use nw_lab.Core.Pipe.Links.{
  Mutual-part, Mutual-same, link_of-put, link_of-kept, linked_end, put_at, source_of,
  pipe_of_source, Linked,
}
use nw_lab.Prelude.{ℕ, ◌≡◌, refl, sym, inl, inr, none, some, done, Option-cases}

-- A source that is freed is forgotten by its pipe, if it has one, and all links stay mutual. The pipe
-- was not freed before.
pub source_destroy-Linked :
    (s : Store) (i : ℕ) (source : End)
    → Linked s
    → s.source_at i ≡ some source
    → (s' : Store) × (source_destroy i s ≡ done s') × Linked s' × (s'.source_at i ≡ none)
unfolding source_destroy
source_destroy-Linked s i source l at_i = elim (Option-cases source.pipe) [
  | inl e ↦ (
    record s { source_at = put s.source_at i none },
    rw (at_i, source_destroy) (rw e),
    record {
      sources =
          Mutual-same _ _ _ _ l.sources (λ p. refl)
            (link_of-kept (λ x. x.pipe) s.source_at i none (rw at_i (sym e)));
      sinks = l.sinks;
    },
    put_at s.source_at i none,
  )
  | inr (p, e) ↦
      let back = (l.sources p i).1 (rw at_i e) in
      let (pipe, at_p, has) = linked_end (λ x. x.source) (s.pipe_at p) back in
      (
        record s {
          pipe_at = put s.pipe_at p (some (record pipe { source = none }));
          source_at = put s.source_at i none;
        },
        rw (at_i, source_destroy) (rw e (rw at_p)),
        record {
          sources =
              Mutual-same _ _ _ _ (Mutual-part (source_of s) (pipe_of_source s) p i l.sources back)
                (link_of-put (λ x. x.source) s.pipe_at p _)
                (link_of-put (λ x. x.pipe) s.source_at i none);
          sinks =
              Mutual-same _ _ _ _ l.sinks (link_of-kept (λ x. x.sink) s.pipe_at p _ (rw at_p))
                (λ j. refl);
        },
        put_at s.source_at i none,
      )
]
