-- ===== src/Core/Pipe/Freed.antt =====
-- src/core/xps_pipe.c: what else an end that is freed changes.
use nw_lab.Buffer.Lists.{BufferList}
use nw_lab.Core.Pipe.{
  Pipe, End, Store, put, forget_source, forget_sink, source_destroy, sink_destroy,
}
use nw_lab.Core.Pipe.Flow.{bind_deref}
use nw_lab.Core.Pipe.Links.{Linked}
use nw_lab.Core.Pipe.Sources.{source_destroy-Linked}
use nw_lab.Core.Pipe.Sinks.{sink_destroy-Linked}
use nw_lab.Prelude.{
  ℕ, ◌≡◌, sym, ap, ◌∙◌, Option, none, some, done, ◌>>=◌, done_eq, >>=-eq-done, arith,
}

-- The list of a pipe that is there.
abbrev pub list_at : Option Pipe → Option BufferList
list_at none = none
list_at (some pipe) = some pipe.buff_list

forget_source-kept :
    (o : Option ℕ) (s s1 : Store)
    → forget_source o s ≡ done s1
    → (s1.source_at ≡ s.source_at)
      × (s1.sink_at ≡ s.sink_at)
      × (s1.next ≡ s.next)
      × ((j : ℕ) → list_at (s1.pipe_at j) ≡ list_at (s.pipe_at j))
unfolding forget_source
forget_source-kept o s s1 e = ground arith

forget_sink-kept :
    (o : Option ℕ) (s s1 : Store)
    → forget_sink o s ≡ done s1
    → (s1.source_at ≡ s.source_at)
      × (s1.sink_at ≡ s.sink_at)
      × (s1.next ≡ s.next)
      × ((j : ℕ) → list_at (s1.pipe_at j) ≡ list_at (s.pipe_at j))
unfolding forget_sink
forget_sink-kept o s s1 e = ground arith

-- A source that is there is freed, no other end is changed, and all links stay mutual.
pub source_destroy-Freed :
    (s : Store) (i : ℕ) (source : End)
    → Linked s
    → s.source_at i ≡ some source
    → (s' : Store) × (source_destroy i s ≡ done s')
      × Linked s'
      × (s'.source_at ≡ put s.source_at i none)
      × (s'.sink_at ≡ s.sink_at)
      × (s'.next ≡ s.next)
      × ((j : ℕ) → list_at (s'.pipe_at j) ≡ list_at (s.pipe_at j))
unfolding source_destroy
source_destroy-Freed s i source l at_i =
    let (s', run, linked, _) = source_destroy-Linked s i source l at_i in
    let opened : (forget_source source.pipe s >>= λ s1.
    done (record s1 { source_at = put s1.source_at i none }))
        ≡ done s' =
      sym (bind_deref _ source _ at_i) ∙ run in
    let (s1, forgot, last) = >>=-eq-done (forget_source source.pipe s) _ opened in
    let (sources, sinks, next, lists) = forget_source-kept source.pipe s s1 forgot in
    let same = done_eq last in
    (
      s',
      run,
      linked,
      sym (ap (λ t. t.source_at) same) ∙ ap (λ m. put m i none) sources,
      sym (ap (λ t. t.sink_at) same) ∙ sinks,
      sym (ap (λ t. t.next) same) ∙ next,
      λ j. sym (ap (λ t. list_at (t.pipe_at j)) same) ∙ lists j,
    )

pub sink_destroy-Freed :
    (s : Store) (i : ℕ) (sink : End)
    → Linked s
    → s.sink_at i ≡ some sink
    → (s' : Store) × (sink_destroy i s ≡ done s')
      × Linked s'
      × (s'.sink_at ≡ put s.sink_at i none)
      × (s'.source_at ≡ s.source_at)
      × (s'.next ≡ s.next)
      × ((j : ℕ) → list_at (s'.pipe_at j) ≡ list_at (s.pipe_at j))
unfolding sink_destroy
sink_destroy-Freed s i sink l at_i =
    let (s', run, linked, _) = sink_destroy-Linked s i sink l at_i in
    let opened : (forget_sink sink.pipe s >>= λ s1.
    done (record s1 { sink_at = put s1.sink_at i none }))
        ≡ done s' =
      sym (bind_deref _ sink _ at_i) ∙ run in
    let (s1, forgot, last) = >>=-eq-done (forget_sink sink.pipe s) _ opened in
    let (sources, sinks, next, lists) = forget_sink-kept sink.pipe s s1 forgot in
    let same = done_eq last in
    (
      s',
      run,
      linked,
      sym (ap (λ t. t.sink_at) same) ∙ ap (λ m. put m i none) sinks,
      sym (ap (λ t. t.source_at) same) ∙ sources,
      sym (ap (λ t. t.next) same) ∙ next,
      λ j. sym (ap (λ t. list_at (t.pipe_at j)) same) ∙ lists j,
    )
