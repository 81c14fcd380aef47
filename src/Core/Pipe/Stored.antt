-- ===== src/Core/Pipe/Stored.antt =====
-- src/core/xps_pipe.c: what holds of the store of pipes and their ends.
use nw_lab.Core.Pipe.{
  Pipe, End, Store, put, source_create, sink_create, source_destroy, sink_destroy,
}
use nw_lab.Core.Pipe.Freed.{list_at, source_destroy-Freed, sink_destroy-Freed}
use nw_lab.Core.Pipe.Links.{Linked, Mutual-same, link_of-kept}
use nw_lab.Prelude.{
  ℕ, ◌≤◌, ◌<◌, ◌≡◌, refl, ap, ◌∙◌, Bool, true, false, Option, none, some, done, arith, Bool-cases,
  inl, inr, ltb, ltb→lt,
}

-- No struct has an address that is not used yet.
pub record IsUnused (s : Store) (j : ℕ) : Type 0 where
  pub pipe_is : s.pipe_at j ≡ none
  pub source_is : s.source_at j ≡ none
  pub sink_is : s.sink_at j ≡ none

-- The links are mutual, the next address and all above are unused.
pub record IsStore (s : Store) : Type 0 where
  pub linked : Linked s
  pub unused : (j : ℕ) → s.next ≤ j → IsUnused s j

pub source_used :
    (s : Store) (i : ℕ) (source : End) → IsStore s → s.source_at i ≡ some source → i < s.next
source_used s i source w e = elim (Bool-cases (ltb i s.next)) [
  | inl low ↦ ltb→lt i s.next low
  | inr high ↦ absurd (let gone = (w.unused i (ground arith)).source_is in cc)
]

pub sink_used : (s : Store) (i : ℕ) (sink : End) → IsStore s → s.sink_at i ≡ some sink → i < s.next
sink_used s i sink w e = elim (Bool-cases (ltb i s.next)) [
  | inl low ↦ ltb→lt i s.next low
  | inr high ↦ absurd (let gone = (w.unused i (ground arith)).sink_is in cc)
]

-- A source is created, or the allocation fails.
pub source_create-IsStore :
    (given : Bool) (owner : ℕ) (s : Store) → IsStore s → IsStore (source_create given owner s).1
unfolding source_create
source_create-IsStore false owner s w = w
source_create-IsStore true owner s w = record {
  linked = record {
    sources =
        Mutual-same _ _ _ _ w.linked.sources (λ p. refl)
          (link_of-kept (λ x. x.pipe) s.source_at s.next _
            (rw (w.unused s.next (omega arith)).source_is refl));
    sinks = w.linked.sinks;
  };
  unused = λ j le.
      let u = w.unused j (omega arith) in
      record {
        pipe_is = u.pipe_is;
        source_is = let fresh = u.source_is in ground arith;
        sink_is = u.sink_is;
      };
}

pub sink_create-IsStore :
    (given : Bool) (owner : ℕ) (s : Store) → IsStore s → IsStore (sink_create given owner s).1
unfolding sink_create
sink_create-IsStore false owner s w = w
sink_create-IsStore true owner s w = record {
  linked = record {
    sources = w.linked.sources;
    sinks =
        Mutual-same _ _ _ _ w.linked.sinks (λ p. refl)
          (link_of-kept (λ x. x.pipe) s.sink_at s.next _
            (rw (w.unused s.next (omega arith)).sink_is refl));
  };
  unused = λ j le.
      let u = w.unused j (omega arith) in
      record {
        pipe_is = u.pipe_is;
        source_is = u.source_is;
        sink_is = let fresh = u.sink_is in ground arith;
      };
}

list_at-none : (o : Option Pipe) → list_at o ≡ none → o ≡ none
list_at-none none e = refl
list_at-none (some pipe) e = cc

-- A source that is there is freed, and no other end is changed.
pub source_destroy-IsStore :
    (s : Store) (i : ℕ) (source : End)
    → IsStore s
    → s.source_at i ≡ some source
    → (s' : Store) × (source_destroy i s ≡ done s')
      × IsStore s'
      × (s'.source_at ≡ put s.source_at i none)
      × (s'.sink_at ≡ s.sink_at)
source_destroy-IsStore s i source w at_i =
    let (s', run, linked, sources, sinks, next, lists) =
      source_destroy-Freed s i source w.linked at_i in
    (
      s',
      run,
      record {
        linked = linked;
        unused = λ j le.
            let u = w.unused j (omega (arith, next)) in
            record {
              pipe_is = list_at-none _ (lists j ∙ ap list_at u.pipe_is);
              source_is =
                  let e = ap (λ m. m j) sources in let gone = u.source_is in e ∙ ground arith;
              sink_is = ap (λ m. m j) sinks ∙ u.sink_is;
            };
      },
      sources,
      sinks,
    )

pub sink_destroy-IsStore :
    (s : Store) (i : ℕ) (sink : End)
    → IsStore s
    → s.sink_at i ≡ some sink
    → (s' : Store) × (sink_destroy i s ≡ done s')
      × IsStore s'
      × (s'.sink_at ≡ put s.sink_at i none)
      × (s'.source_at ≡ s.source_at)
sink_destroy-IsStore s i sink w at_i =
    let (s', run, linked, sinks, sources, next, lists) =
      sink_destroy-Freed s i sink w.linked at_i in
    (
      s',
      run,
      record {
        linked = linked;
        unused = λ j le.
            let u = w.unused j (omega (arith, next)) in
            record {
              pipe_is = list_at-none _ (lists j ∙ ap list_at u.pipe_is);
              source_is = ap (λ m. m j) sources ∙ u.source_is;
              sink_is = let e = ap (λ m. m j) sinks in let gone = u.sink_is in e ∙ ground arith;
            };
      },
      sinks,
      sources,
    )
