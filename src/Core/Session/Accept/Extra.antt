-- ===== src/Core/Session/Accept/Extra.antt =====
-- src/core/xps_session.c: the five ends of a session, created and destroyed.
use nw_lab.Core.Pipe.{End, Store}
use nw_lab.Core.Pipe.Keeps.{KeepsEnds, source_destroy-KeepsEnds, sink_destroy-KeepsEnds}
use nw_lab.Core.Pipe.Stored.{IsStore}
use nw_lab.Core.Session.Accept.{Ends, destroy_source, destroy_sink, destroy_ends}
use nw_lab.Prelude.{ℕ, ◌≡◌, ◌≢◌, refl, ap, ◌∙◌, Option, none, some, done, arith, >>=-done}

-- An end that is there now and was not there at first, if it was created at all.
abbrev pub IsExtra : (m m' : ℕ → Option End) → Option ℕ → Type 0
IsExtra m m' o = (i : ℕ) → o ≡ some i → (m i ≡ none) × (e : End) × (m' i ≡ some e)

abbrev pub Apart : Option ℕ → Option ℕ → Type 0
Apart o o' = (i : ℕ) → o ≡ some i → o' ≢ some i

-- The ends of a session in the store `s`, which was `s0` before.
pub record AreExtra (s0 s : Store) (ends : Ends) : Type 0 where
  pub store : IsStore s
  pub keeps : KeepsEnds s0 s
  pub client_source : IsExtra s0.source_at s.source_at ends.client_source
  pub upstream_source : IsExtra s0.source_at s.source_at ends.upstream_source
  pub client_sink : IsExtra s0.sink_at s.sink_at ends.client_sink
  pub upstream_sink : IsExtra s0.sink_at s.sink_at ends.upstream_sink
  pub file_sink : IsExtra s0.sink_at s.sink_at ends.file_sink
  pub sources_apart : Apart ends.client_source ends.upstream_source
  pub client_upstream_apart : Apart ends.client_sink ends.upstream_sink
  pub client_file_apart : Apart ends.client_sink ends.file_sink
  pub upstream_file_apart : Apart ends.upstream_sink ends.file_sink

-- Ends that are destroyed one after the other.
module _ (s0 : Store) where
  destroy_source-Extra :
      (s : Store) (o : Option ℕ)
      → IsStore s
      → KeepsEnds s0 s
      → IsExtra s0.source_at s.source_at o
      → (s' : Store) × (destroy_source o s ≡ done s')
        × IsStore s'
        × KeepsEnds s0 s'
        × ((j : ℕ) → o ≢ some j → s'.source_at j ≡ s.source_at j)
        × ((j : ℕ) → o ≡ some j → s'.source_at j ≡ none)
        × (s'.sink_at ≡ s.sink_at)
  unfolding destroy_source
  destroy_source-Extra s none w k extra =
      (s, refl, w, k, λ j differ. refl, λ j e. absurd (cc), refl)
  destroy_source-Extra s (some i) w k extra =
      let (absent, e, at) = extra i refl in
      let (s', run, w', k', sources, sinks) = source_destroy-KeepsEnds s0 s i e w k absent at in
      (
        s',
        run,
        w',
        k',
        λ j differ. rw sources (let other : ¬ (i ≡ j) = λ x. differ (ap some x) in ground arith),
        λ j same. rw sources (let here : i ≡ j = cc in ground arith),
        sinks,
      )

  destroy_sink-Extra :
      (s : Store) (o : Option ℕ)
      → IsStore s
      → KeepsEnds s0 s
      → IsExtra s0.sink_at s.sink_at o
      → (s' : Store) × (destroy_sink o s ≡ done s')
        × IsStore s'
        × KeepsEnds s0 s'
        × ((j : ℕ) → o ≢ some j → s'.sink_at j ≡ s.sink_at j)
        × ((j : ℕ) → o ≡ some j → s'.sink_at j ≡ none)
        × (s'.source_at ≡ s.source_at)
  unfolding destroy_sink
  destroy_sink-Extra s none w k extra = (s, refl, w, k, λ j differ. refl, λ j e. absurd (cc), refl)
  destroy_sink-Extra s (some i) w k extra =
      let (absent, e, at) = extra i refl in
      let (s', run, w', k', sinks, sources) = sink_destroy-KeepsEnds s0 s i e w k absent at in
      (
        s',
        run,
        w',
        k',
        λ j differ. rw sinks (let other : ¬ (i ≡ j) = λ x. differ (ap some x) in ground arith),
        λ j same. rw sinks (let here : i ≡ j = cc in ground arith),
        sources,
      )

-- An end stays extra while others change.
stays_there :
    (m m1 m2 : ℕ → Option End) (o : Option ℕ)
    → IsExtra m m1 o
    → ((j : ℕ) → o ≡ some j → m2 j ≡ m1 j)
    → IsExtra m m2 o
stays_there m m1 m2 o extra same i e =
    let (absent, end, at) = extra i e in (absent, end, same i e ∙ at)

-- All ends that were created are freed, and the others stay.
pub destroy_ends-KeepsEnds :
    (s0 s : Store) (ends : Ends)
    → AreExtra s0 s ends
    → (s' : Store) × (destroy_ends ends s ≡ done s') × IsStore s' × KeepsEnds s0 s'
unfolding destroy_ends
destroy_ends-KeepsEnds s0 s ends a =
    let (s1, run1, w1, k1, other1, gone1, sinks1) =
      destroy_source-Extra s0 s ends.client_source a.store a.keeps a.client_source in
    let (s2, run2, w2, k2, other2, gone2, sources2) =
      destroy_sink-Extra s0 s1 ends.client_sink w1 k1 (rw sinks1 a.client_sink) in
    let (s3, run3, w3, k3, other3, gone3, sinks3) =
      destroy_source-Extra s0 s2 ends.upstream_source w2 k2 (
        stays_there s0.source_at s.source_at s2.source_at ends.upstream_source a.upstream_source
          (λ j e. ap (λ m. m j) sources2 ∙ other1 j (λ e'. a.sources_apart j e' e))) in
    let sinks_after = λ (j : ℕ) (apart : ends.client_sink ≢ some j).
      ap (λ m. m j) sinks3 ∙ other2 j apart ∙ ap (λ m. m j) sinks1 in
    let (s4, run4, w4, k4, other4, gone4, sources4) =
      destroy_sink-Extra s0 s3 ends.upstream_sink w3 k3 (
        stays_there s0.sink_at s.sink_at s3.sink_at ends.upstream_sink a.upstream_sink
          (λ j e. sinks_after j (λ e'. a.client_upstream_apart j e' e))) in
    let (s5, run5, w5, k5, other5, gone5, sources5) =
      destroy_sink-Extra s0 s4 ends.file_sink w4 k4 (
        stays_there s0.sink_at s.sink_at s4.sink_at ends.file_sink a.file_sink (λ j e.
          other4 j (λ e'. a.upstream_file_apart j e' e)
          ∙ sinks_after j (λ e'. a.client_file_apart j e' e))) in
    (s5, >>=-done _ run1 ∙ >>=-done _ run2 ∙ >>=-done _ run3 ∙ >>=-done _ run4 ∙ run5, w5, k5)
