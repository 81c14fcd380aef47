-- ===== src/Core/Pipe/Readied.antt =====
-- src/core/xps_pipe.c: an end that is made ready, or not, stays where it is.
use nw_lab.Core.Pipe.{End, Store, put}
use nw_lab.Core.Pipe.Keeps.{KeepsEnds, put-KeepsOwners}
use nw_lab.Core.Pipe.Links.{Mutual-same, link_of-kept}
use nw_lab.Core.Pipe.Ready.{
  set_source_ready, set_source_ready_lem, set_sink_ready, set_sink_ready_lem,
}
use nw_lab.Core.Pipe.Stored.{IsStore, source_used, sink_used}
use nw_lab.Prelude.{
  ℕ, ◌≡◌, refl, sym, ap, ◌∙◌, inl, inr, Bool, none, some, done, arith, ◌==◌, Bool-cases,
}

-- A sink that is made ready, or not, keeps its pipe and its owner.
pub set_sink_ready-KeepsEnds :
    (k : ℕ) (b : Bool) (s : Store) (sink : End)
    → IsStore s
    → s.sink_at k ≡ some sink
    → (s' : Store) × (set_sink_ready k b s ≡ done s')
      × IsStore s'
      × KeepsEnds s s'
      × (s'.source_at ≡ s.source_at)
      × ((j : ℕ) (e : End)
          → s.sink_at j ≡ some e
          → e.pipe ≡ none
          → (e' : End) × (s'.sink_at j ≡ some e') × (e'.pipe ≡ none))
set_sink_ready-KeepsEnds k b s sink w at = (
  record s { sink_at = put s.sink_at k (some (record sink { ready = b })) },
  set_sink_ready_lem k b s sink at,
  record {
    linked = record {
      sources = w.linked.sources;
      sinks =
          Mutual-same _ _ _ _ w.linked.sinks (λ p. refl)
            (link_of-kept (λ x. x.pipe) s.sink_at k _ (rw at));
    };
    unused = λ j le.
        let u = w.unused j le in
        record {
          pipe_is = u.pipe_is;
          source_is = u.source_is;
          sink_is = let fresh = u.sink_is in let low = sink_used s k sink w at in ground arith;
        };
  },
  record {
    sources = λ i e there. (e, there, refl);
    sinks = put-KeepsOwners s.sink_at k sink _ at refl;
  },
  refl,
  λ j e there free. elim (Bool-cases (j == k)) [
    | inl hit ↦
        let here : j ≡ k = ground arith in
        let one : some e ≡ some sink = sym there ∙ ap s.sink_at here ∙ at in
        (record sink { ready = b }, rw hit, ground arith)
    | inr miss ↦ (e, rw miss there, free)
  ],
)

pub set_source_ready-KeepsEnds :
    (i : ℕ) (b : Bool) (s : Store) (source : End)
    → IsStore s
    → s.source_at i ≡ some source
    → (s' : Store) × (set_source_ready i b s ≡ done s') × IsStore s' × KeepsEnds s s'
set_source_ready-KeepsEnds i b s source w at = (
  record s { source_at = put s.source_at i (some (record source { ready = b })) },
  set_source_ready_lem i b s source at,
  record {
    linked = record {
      sources =
          Mutual-same _ _ _ _ w.linked.sources (λ p. refl)
            (link_of-kept (λ x. x.pipe) s.source_at i _ (rw at));
      sinks = w.linked.sinks;
    };
    unused = λ j le.
        let u = w.unused j le in
        record {
          pipe_is = u.pipe_is;
          source_is =
              let fresh = u.source_is in let low = source_used s i source w at in ground arith;
          sink_is = u.sink_is;
        };
  },
  record {
    sources = put-KeepsOwners s.source_at i source _ at refl;
    sinks = λ k e there. (e, there, refl);
  },
)
