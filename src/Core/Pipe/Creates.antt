-- ===== src/Core/Pipe/Creates.antt =====
-- src/core/xps_pipe.c: a pipe that is created between a source and a sink.
use nw_lab.Core.Loop.Marks.{vec_push-Has, vec_push-Unique}
use nw_lab.Core.Loop.Sound.{IsSound}
use nw_lab.Core.Pipe.{
  Pipe, End, Store, put, attach_source, attach_sink, activate_source, activate_sink, link_pipe,
  new_pipe, pipe_create,
}
use nw_lab.Core.Pipe.Flow.{bind_deref}
use nw_lab.Core.Pipe.Keeps.{KeepsEnds, KeepsEnds-refl, put-put, put-KeepsOwners}
use nw_lab.Core.Pipe.Links.{
  Mutual-join, Mutual-same, link_of-put, put_at, source_of, sink_of, pipe_of_source, pipe_of_sink,
  Linked,
}
use nw_lab.Core.Pipe.Stored.{IsStore, source_used, sink_used}
use nw_lab.Prelude.{
  ℕ, suc, ◌<◌, ◌≡◌, ◌≢◌, refl, ap, ◌∙◌, ◌⊎◌, inl, inr, Bool, true, [], Option, none, some, done,
  Mallocs, arith, ◌==◌, Bool-cases, >>=-done, lt→ltb,
}
use nw_lab.Status.{ok}
use nw_lab.Vec.{vec_push}

-- Each step of the code that links a pipe to its ends, where the structs are there.
attach_source_lem :
    (p i : ℕ) (s : Store) (pipe : Pipe) (source : End)
    → s.pipe_at p ≡ some pipe
    → pipe.source ≡ none
    → s.source_at i ≡ some source
    → attach_source p i s
      ≡ done (
        ok,
        record s {
          pipe_at = put s.pipe_at p (some (record pipe { source = some i }));
          source_at = put s.source_at i (some (record source { pipe = some p }));
        },
      )
unfolding attach_source
attach_source_lem p i s pipe source at_p free at_i =
    bind_deref _ pipe _ at_p ∙ rw free (bind_deref _ source _ at_i)

attach_sink_lem :
    (p k : ℕ) (s : Store) (pipe : Pipe) (sink : End)
    → s.pipe_at p ≡ some pipe
    → pipe.sink ≡ none
    → s.sink_at k ≡ some sink
    → attach_sink p k s
      ≡ done (
        ok,
        record s {
          pipe_at = put s.pipe_at p (some (record pipe { sink = some k }));
          sink_at = put s.sink_at k (some (record sink { pipe = some p }));
        },
      )
unfolding attach_sink
attach_sink_lem p k s pipe sink at_p free at_k =
    bind_deref _ pipe _ at_p ∙ rw free (bind_deref _ sink _ at_k)

activate_source_lem :
    (i : ℕ) (s : Store) (source : End)
    → s.source_at i ≡ some source
    → activate_source i s
      ≡ done (record s { source_at = put s.source_at i (some (record source { active = true })) })
unfolding activate_source
activate_source_lem i s source at_i = bind_deref _ source _ at_i

activate_sink_lem :
    (k : ℕ) (s : Store) (sink : End)
    → s.sink_at k ≡ some sink
    → activate_sink k s
      ≡ done (record s { sink_at = put s.sink_at k (some (record sink { active = true })) })
unfolding activate_sink
activate_sink_lem k s sink at_k = bind_deref _ sink _ at_k

-- The pipe knows its two ends, or there is none and nothing has changed.
pub record IsPipeMade (given : Mallocs) (i k : ℕ) (s : Store) (o : Option ℕ) (s' : Store)
    : Type 0 where
  pub store : IsStore s'
  pub sound : IsSound s → IsSound s'
  pub keeps : KeepsEnds s s'
  pub made :
      ((o ≡ none) × (s' ≡ s))
      ⊎ ((o ≡ some s.next)
          × (source_of s' s.next ≡ some i)
          × (sink_of s' s.next ≡ some k)
          × (pipe_of_source s' i ≡ some s.next)
          × (pipe_of_sink s' k ≡ some s.next))
  pub allowed : given 0 ≡ true → given 1 ≡ true → o ≡ some s.next
  pub other_sources : (j : ℕ) → j ≢ i → s'.source_at j ≡ s.source_at j
  pub other_sinks : (j : ℕ) → j ≢ k → s'.sink_at j ≡ s.sink_at j

module _ (grown : Bool) (thresh i k : ℕ) (s : Store) (source sink : End) (w : IsStore s)
    (source_is : s.source_at i ≡ some source) (source_free : source.pipe ≡ none)
    (sink_is : s.sink_at k ≡ some sink) (sink_free : sink.pipe ≡ none) where
  abbrev joined_pipe : Pipe
  joined_pipe = record {
    source = some i;
    sink = some k;
    buff_list = record { list = []; len = 0 };
    buff_thresh = thresh;
  }

  abbrev joined : Store
  joined = record s {
    pipe_at = put s.pipe_at s.next (some joined_pipe);
    source_at = put s.source_at i (some (record source { pipe = some s.next; active = true }));
    sink_at = put s.sink_at k (some (record sink { pipe = some s.next; active = true }));
    next = suc s.next;
    pipes = vec_push grown s.pipes (some s.next);
  }

  -- The four steps write the same places again.
  abbrev settling : (ℕ → Option Pipe) → (sources sinks : ℕ → Option End) → Store
  settling pipes sources sinks = record s {
    pipe_at = pipes;
    source_at = sources;
    sink_at = sinks;
    next = suc s.next;
    pipes = vec_push grown s.pipes (some s.next);
  }

  settling_eq :
      {f f' : ℕ → Option Pipe} {g g' h h' : ℕ → Option End}
      → f ≡ f'
      → g ≡ g'
      → h ≡ h'
      → settling f g h ≡ settling f' g' h'
  settling_eq e1 e2 e3 = rw (e1, e2, e3)

  link_pipe-joined : link_pipe grown thresh i k s ≡ done (some s.next, joined)
  unfolding link_pipe
  link_pipe-joined =
      let s0 : Store = record s {
        pipe_at = put s.pipe_at s.next (some (new_pipe thresh));
        next = suc s.next;
        pipes = vec_push grown s.pipes (some s.next);
      } in
      let half : Pipe = record joined_pipe { sink = none } in
      let s1 : Store = record s0 {
        pipe_at = put s0.pipe_at s.next (some half);
        source_at = put s.source_at i (some (record source { pipe = some s.next }));
      } in
      let s2 : Store = record s1 {
        pipe_at = put s1.pipe_at s.next (some joined_pipe);
        sink_at = put s.sink_at k (some (record sink { pipe = some s.next }));
      } in
      let s3 : Store = record s2 {
        source_at = put s2.source_at i (some (record source { pipe = some s.next; active = true }));
      } in
      let run1 : attach_source s.next i s0 ≡ done (ok, s1) =
        attach_source_lem s.next i s0 (new_pipe thresh) source (put_at s.pipe_at s.next _) refl
          source_is in
      let run2 : attach_sink s.next k s1 ≡ done (ok, s2) =
        attach_sink_lem s.next k s1 half sink (put_at s0.pipe_at s.next _) refl sink_is in
      let run3 : activate_source i s2 ≡ done s3 =
        activate_source_lem i s2 _ (put_at s.source_at i _) in
      let run4 = activate_sink_lem k s3 _ (put_at s.sink_at k _) in
      >>=-done _ run1
      ∙ >>=-done _ run2
      ∙ >>=-done _ run3
      ∙ >>=-done _ run4
      ∙ ap (λ t. done (some s.next, t))
          (settling_eq (put-put _ s.next _ _ ∙ put-put s.pipe_at s.next _ _)
            (put-put s.source_at i _ _) (put-put s.sink_at k _ _))

  joined-Linked : Linked joined
  joined-Linked = record {
    sources =
        Mutual-same _ _ _ _
          (Mutual-join (source_of s) (pipe_of_source s) s.next i w.linked.sources
            (rw (w.unused s.next (omega arith)).pipe_is refl) (rw source_is source_free))
          (link_of-put (λ x. x.source) s.pipe_at s.next _)
          (link_of-put (λ x. x.pipe) s.source_at i _);
    sinks =
        Mutual-same _ _ _ _
          (Mutual-join (sink_of s) (pipe_of_sink s) s.next k w.linked.sinks
            (rw (w.unused s.next (omega arith)).pipe_is refl) (rw sink_is sink_free))
          (link_of-put (λ x. x.sink) s.pipe_at s.next _) (link_of-put (λ x. x.pipe) s.sink_at k _);
  }

  joined-IsStore : IsStore joined
  joined-IsStore = record {
    linked = joined-Linked;
    unused = λ j le.
        let u = w.unused j (omega arith) in
        record {
          pipe_is = let fresh = u.pipe_is in ground arith;
          source_is =
              let fresh = u.source_is in
              let low = source_used s i source w source_is in ground arith;
          sink_is = let fresh = u.sink_is in let low = sink_used s k sink w sink_is in ground arith;
        };
  }

  joined-IsSound : IsSound s → IsSound joined
  joined-IsSound sound = record {
    linked = joined-Linked;
    unique =
        vec_push-Unique grown s.pipes s.next
          (λ has.
            let (pipe, at) = sound.listed s.next has in
            let fresh = (w.unused s.next (omega arith)).pipe_is in cc)
          sound.unique;
    listed = λ p has. elim (vec_push-Has grown s.pipes s.next p has) [
      | inl old_one ↦ elim (Bool-cases (p == s.next)) [
        | inl hit ↦ (joined_pipe, rw hit)
        | inr miss ↦ let (pipe, at) = sound.listed p old_one in (pipe, rw miss at)
      ]
      | inr here ↦ (joined_pipe, rw (← here) (put_at s.pipe_at s.next _))
    ];
  }

  -- Between a source and a sink that are there and have no pipe, a pipe with a threshold above 0 is
  -- created where both allocations succeed; else nothing changes. The new pipe knows its two ends, and
  -- they know it. All links stay mutual, no other end changes, every end keeps its owner, and a list
  -- of pipes that holds each pipe once, all of them there, still does.
  pub pipe_create-IsPipeMade :
      (given : Mallocs)
      → 0 < thresh
      → (r : Option ℕ × Store) × (pipe_create given grown thresh i k s ≡ done r)
        × IsPipeMade given i k s r.0 r.1
  unfolding pipe_create
  pipe_create-IsPipeMade given pos =
      let asserted = lt→ltb 0 thresh pos in
      elim (Bool-cases (given 0)) [
        | inr no_pipe ↦ ((none, s), rw (asserted, no_pipe), unmade (λ e0 e1. cc))
        | inl pipe_given ↦ elim (Bool-cases (given 1)) [
          | inr no_list ↦ ((none, s), rw (asserted, pipe_given, no_list), unmade (λ e0 e1. cc))
          | inl list_given ↦
              ((some s.next, joined), rw (asserted, pipe_given, list_given) link_pipe-joined, made)
        ]
      ]
    where
      unmade :
          (given 0 ≡ true → given 1 ≡ true → none ≡ some s.next) → IsPipeMade given i k s none s
      unmade refused = record {
        allowed = refused;
        store = w;
        sound = λ sound. sound;
        keeps = KeepsEnds-refl s;
        made = inl (refl, refl);
        other_sources = λ j differ. refl;
        other_sinks = λ j differ. refl;
      }

      made : IsPipeMade given i k s (some s.next) joined
      made = record {
        allowed = λ e0 e1. refl;
        store = joined-IsStore;
        sound = joined-IsSound;
        keeps = record {
          sources = put-KeepsOwners s.source_at i source _ source_is refl;
          sinks = put-KeepsOwners s.sink_at k sink _ sink_is refl;
        };
        made = inr (
          refl,
          rw (put_at s.pipe_at s.next _),
          rw (put_at s.pipe_at s.next _),
          rw (put_at s.source_at i _),
          rw (put_at s.sink_at k _),
        );
        other_sources = λ j differ. ground arith;
        other_sinks = λ j differ. ground arith;
      }
