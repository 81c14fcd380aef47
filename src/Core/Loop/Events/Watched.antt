-- ===== src/Core/Loop/Events/Watched.antt =====
-- src/core/xps_loop.c: the list of events, attached and detached.
use nw_lab.Core.Loop.Events.{
  Event, Loop, event_create, event_destroy, loop_attach, find_event, forget_event, loop_detach,
}
use nw_lab.Core.Loop.Marks.{
  Has, Unique, nulls, mark_null-Has, Has-mark_null, mark_null-Unique, nulls-mark_null_found,
  vec_push-Has, vec_push-Unique, nulls-vec_push,
}
use nw_lab.Core.Pipe.Flow.{bind_deref}
use nw_lab.Prelude.{
  ℕ, ◌<◌, ◌≡◌, ◌≢◌, refl, sym, ap, ◌∙◌, ◌⊎◌, inl, inr, Bool, true, false, List, [], ◌∷◌, Option,
  none, some, done, >>=-done, ◌==◌, arith, Bool-cases,
}
use nw_lab.Status.{Code, ok}

-- Every event of the list is there, none comes twice, and the NULLs are counted.
pub record IsWatched (loop : Loop) : Type 0 where
  pub live : (e : ℕ) → Has e loop.events → (event : Event) × (loop.event_at e ≡ some event)
  pub unique : Unique loop.events
  pub fresh : (e : ℕ) → Has e loop.events → e < loop.next
  pub counted : loop.n_null_events ≡ nulls loop.events

-- No event of the list has the descriptor.
abbrev pub NoneWith : ℕ → List (Option ℕ) → Loop → Type 0
NoneWith fd events loop =
    (e : ℕ) (event : Event) → Has e events → loop.event_at e ≡ some event → ¬ (event.fd ≡ fd)

-- The first event with the descriptor is found, or none has it.
pub find_event-found :
    (fd : ℕ) (events : List (Option ℕ)) (loop : Loop)
    → ((e : ℕ) → Has e events → (event : Event) × (loop.event_at e ≡ some event))
    → ((find_event fd events loop ≡ done none) × NoneWith fd events loop)
      ⊎ ((e : ℕ) × (find_event fd events loop ≡ done (some e))
          × Has e events
          × (event : Event) × (loop.event_at e ≡ some event)
          × (event.fd ≡ fd))
unfolding find_event
find_event-found fd [] loop live = inl (refl, λ e event has. absurd has)
find_event-found fd (none ∷ events) loop live = find_event-found fd events loop live
find_event-found fd (some x ∷ events) loop live =
    let rest = find_event-found fd events loop in
    let (event, at) = live x (inl refl) in
    elim (Bool-cases (event.fd == fd)) [
      | inl hit ↦ inr (x, bind_deref _ event _ at ∙ rw hit, inl refl, event, at, ground arith)
      | inr miss ↦ elim (rest (λ e h. live e (inr h))) [
        | inl (nothing, apart) ↦ inl (
          bind_deref _ event _ at ∙ rw miss nothing,
          λ e other has there same. elim has [
            | inl here ↦
                absurd
                  (let twice : some event ≡ some other = sym at ∙ rw here there in ground arith)
            | inr later ↦ apart e other later there same
          ],
        )
        | inr (e, found, has, other, there, same) ↦
            inr (e, bind_deref _ event _ at ∙ rw miss found, inr has, other, there, same)
      ]
    ]

-- The event that is freed leaves the list.
pub forget_event-IsWatched :
    (loop : Loop) (e : ℕ) → IsWatched loop → Has e loop.events → IsWatched (forget_event e loop)
unfolding forget_event event_destroy
forget_event-IsWatched loop e w has = record {
  live = λ x h.
      let (there, apart) = mark_null-Has e x loop.events w.unique h in
      let (event, at) = w.live x there in (event, ground arith);
  unique = mark_null-Unique e loop.events w.unique;
  fresh = λ x h. w.fresh x (mark_null-Has e x loop.events w.unique h).0;
  counted = omega (arith, w.counted, nulls-mark_null_found e loop.events has);
}

-- Attaching an event, whatever `malloc`, `epoll_ctl` and the growth of the list answer, keeps every
-- event of the list allocated and the list without repetition, and its number of NULLs right.
pub loop_attach-IsWatched :
    (given added grown : Bool) (event : Event) (loop : Loop)
    → IsWatched loop
    → IsWatched (loop_attach given added grown event loop).1
unfolding loop_attach event_create event_destroy
loop_attach-IsWatched false added grown event loop w = w
loop_attach-IsWatched true false grown event loop w = record {
  live = λ x h. let (old, at) = w.live x h in let below = w.fresh x h in (old, ground arith);
  unique = w.unique;
  fresh = λ x h. omega (arith, w.fresh x h);
  counted = w.counted;
}
loop_attach-IsWatched true true grown event loop w = record {
  live = λ x h. elim (vec_push-Has grown loop.events loop.next x h) [
    | inl old_one ↦
        let (old, at) = w.live x old_one in let below = w.fresh x old_one in (old, ground arith)
    | inr e ↦ (event, ground arith)
  ];
  unique =
      vec_push-Unique grown loop.events loop.next
        (λ h. let below = w.fresh loop.next h in omega arith) w.unique;
  fresh = λ x h. elim (vec_push-Has grown loop.events loop.next x h) [
    | inl old_one ↦ omega (arith, w.fresh x old_one)
    | inr e ↦ omega arith
  ];
  counted = w.counted ∙ sym (nulls-vec_push grown loop.events loop.next);
}

-- Where no two events have the same descriptor and `epoll_ctl` removes it, the events that are left are
-- those that were there before and have other descriptors.
pub loop_detach-rest :
    (fd : ℕ) (loop : Loop)
    → IsWatched loop
    → ((e e' : ℕ) (event event' : Event)
        → Has e loop.events
        → loop.event_at e ≡ some event
        → Has e' loop.events
        → loop.event_at e' ≡ some event'
        → event.fd ≡ event'.fd
        → e ≡ e')
    → (r : Option Code × Loop) × (loop_detach true fd loop ≡ done r)
      × IsWatched r.1
      × ((e : ℕ) (event : Event)
          → Has e r.1.events
          → r.1.event_at e ≡ some event
          → Has e loop.events × (loop.event_at e ≡ some event) × (¬ (event.fd ≡ fd)))
      × ((e : ℕ) (event : Event)
          → Has e loop.events
          → loop.event_at e ≡ some event
          → ¬ (event.fd ≡ fd)
          → Has e r.1.events × (r.1.event_at e ≡ some event))
unfolding loop_detach forget_event event_destroy
loop_detach-rest fd loop w one_each = elim (find_event-found fd loop.events loop w.live) [
  | inl (nothing, apart) ↦ (
    (none, loop),
    >>=-done _ nothing,
    w,
    λ e event has at. (has, at, apart e event has at),
    λ e event has at differ. (has, at),
  )
  | inr (x, found, has_x, first, at_x, same) ↦ (
    (some ok, forget_event x loop),
    >>=-done _ found,
    forget_event-IsWatched loop x w has_x,
    λ e event has at.
        let (has_e, apart) = mark_null-Has x e loop.events w.unique has in
        let at_e : loop.event_at e ≡ some event = ground arith in
        (has_e, at_e, λ f. apart (one_each e x event first has_e at_e has_x at_x (f ∙ sym same))),
    λ e event has at differ.
        let other : e ≢ x = λ here. differ (
          ap (λ v. v.fd)
            (let one : some event ≡ some first = sym at ∙ ap loop.event_at here ∙ at_x in
              let same_one : event ≡ first = cc in same_one)
          ∙ same) in
        (Has-mark_null x e loop.events other has, ground arith),
  )
]
