-- ===== src/Core/Session/Accept/Creates.antt =====
-- src/core/xps_session.c: `xps_session_create`, on every branch.
use nw_lab.Core.Pipe.{End, Store, pipe_create}
use nw_lab.Core.Pipe.Creates.{IsPipeMade, pipe_create-IsPipeMade}
use nw_lab.Core.Pipe.Keeps.{KeepsEnds}
use nw_lab.Core.Pipe.Readied.{set_sink_ready-KeepsEnds}
use nw_lab.Core.Pipe.Links.{pipe_of_source, pipe_of_sink, link_of}
use nw_lab.Core.Pipe.Ready.{set_sink_ready}
use nw_lab.Core.Session.{Session, World, Upstream}
use nw_lab.Core.Session.Accept.{Ends, destroy_ends, attach_client, add_session}
use nw_lab.Core.Session.Accept.Extra.{AreExtra, destroy_ends-KeepsEnds}
use nw_lab.Core.Session.Accept.Joined.{AreExtra-later, IsFree, IsServed}
use nw_lab.Core.Session.Serve.{Served}
use nw_lab.Prelude.{
  ℕ, ◌≡◌, ◌≢◌, refl, sym, ap, ◌∙◌, inl, inr, Bool, true, Option, none, some, done, ◌>>=◌, Mallocs,
  arith, >>=-done, some-none,
}
use nw_lab.Vec.{vec_push}

-- An end that was there before is another one than an end that was not.
differs : (m : ℕ → Option End) (i j : ℕ) (e : End) → m i ≡ some e → m j ≡ none → i ≢ j
differs m i j e at absent same = some-none (sym at ∙ ap m same ∙ absent)

-- Where the ends are destroyed, no session is served.
pub unserved :
    (asked : Type 0) (refused : asked → ⊥) (self : ℕ) (client : Upstream) (ends : Ends) (s0 : Store)
    (w : World)
    → AreExtra s0 w.store ends
    → (s' : Store) × (destroy_ends ends w.store ≡ done s')
      × IsServed asked self client s0 (none, record w { store = s' })
unserved asked refused self client ends s0 w a =
    let (s', run, store, keeps) = destroy_ends-KeepsEnds s0 w.store ends a in
    (
      s',
      run,
      record {
        store = store;
        keeps = keeps;
        joined = λ session e. absurd (cc);
        allowed = λ yes_all. absurd (refused yes_all);
      },
    )

-- Every allocation of the two pipes succeeds.
abbrev pub Granted : (ℕ → Mallocs) → Type 0
Granted pipe_given = (i n : ℕ) → pipe_given i n ≡ true

module _ (pipe_given : ℕ → Mallocs) (pipe_grown : Mallocs) (self : ℕ) (client : Upstream)
    (ends : Ends) (session : Session) (s0 : Store) where
  -- The ends towards the client are new and free, and those of the client are free.
  pub record IsReady (s : Store) : Type 0 where
    pub named : session.self ≡ self
    pub extra : AreExtra s0 s ends
    pub new_source : s0.source_at session.client_source ≡ none
    pub new_sink : s0.sink_at session.client_sink ≡ none
    pub client_source : End
    pub client_source_is : s0.source_at client.source ≡ some client_source
    pub client_sink : End
    pub client_sink_is : s0.sink_at client.sink ≡ some client_sink
    pub source_free : IsFree s.source_at session.client_source
    pub sink_free : IsFree s.sink_at session.client_sink
    pub client_source_free : IsFree s.source_at client.source
    pub client_sink_free : IsFree s.sink_at client.sink

  -- The second pipe, from the session to its client, once the first one is there.
  second_pipe :
      (w : World) (s1 : Store) (p : ℕ)
      → (d : IsReady w.store)
      → IsPipeMade (pipe_given 0) client.source session.client_sink w.store (some p) s1
      → pipe_of_source s1 client.source ≡ some p
      → pipe_of_sink s1 session.client_sink ≡ some p
      → (r : Served) × ((pipe_create
              (pipe_given 1)
              (pipe_grown 1)
              1000000
              session.client_source
              client.sink
              s1
            >>= λ q. elim q.0 [
              | none ↦ destroy_ends ends q.1 >>= λ s. done (none, record w { store = s })
              | some _ ↦ done (some session, record w { store = q.1 })
            ])
          ≡ done r)
        × IsServed (Granted pipe_given) self client s0 r
  second_pipe w s1 p d made1 source_has sink_has =
      let (source, source_is, source_free) = d.source_free in
      let (sink, sink_is, sink_free) = d.client_sink_free in
      let apart =
        differs s0.source_at client.source session.client_source d.client_source d.client_source_is
          d.new_source in
      let sinks_apart =
        differs s0.sink_at client.sink session.client_sink d.client_sink d.client_sink_is
          d.new_sink in
      let (r2, run2, made2) =
        pipe_create-IsPipeMade (pipe_grown 1) 1000000 session.client_source client.sink s1 source
          sink made1.store
          (made1.other_sources session.client_source (λ e. apart (sym e)) ∙ source_is) source_free
          (made1.other_sinks client.sink sinks_apart ∙ sink_is) sink_free (pipe_given 1)
          (omega arith) in
      let a1 = AreExtra-later s0 w.store s1 ends d.extra made1.store made1.keeps in
      let a2 = AreExtra-later s0 s1 r2.1 ends a1 made2.store made2.keeps in
      elim made2.made [
        | inl (nothing, _) ↦
            let (s', run, served) =
              unserved (Granted pipe_given)
                (λ all. some-none (sym (made2.allowed (all 1 0) (all 1 1)) ∙ nothing)) self client
                ends s0 (record w { store = r2.1 }) a2 in
            ((none, record w { store = s' }), >>=-done _ run2 ∙ rw nothing (>>=-done _ run), served)
        | inr (something, _, _, source_joined, sink_joined) ↦ (
          (some session, record w { store = r2.1 }),
          >>=-done _ run2 ∙ rw something refl,
          record {
            store = made2.store;
            keeps = a2.keeps;
            allowed = λ all. (session, refl);
            joined = λ found e.
                let same : session ≡ found = cc in
                rw (← same) (
                  d.named,
                  (
                    p,
                    ap (link_of (λ x. x.pipe)) (made2.other_sources client.source apart)
                        ∙ source_has,
                    ap (link_of (λ x. x.pipe))
                          (made2.other_sinks session.client_sink (λ e'. sinks_apart (sym e')))
                        ∙ sink_has,
                  ),
                  (s1.next, source_joined, sink_joined),
                );
          },
        )
      ]

  attach_client-IsServed :
      (w : World)
      → IsReady w.store
      → (r : Served) × (attach_client pipe_given pipe_grown client ends session w ≡ done r)
        × IsServed (Granted pipe_given) self client s0 r
  unfolding attach_client
  attach_client-IsServed w d =
      let (source, source_is, source_free) = d.client_source_free in
      let (sink, sink_is, sink_free) = d.sink_free in
      let (r1, run1, made1) =
        pipe_create-IsPipeMade (pipe_grown 0) 1000000 client.source session.client_sink w.store
          source sink d.extra.store source_is source_free sink_is sink_free (pipe_given 0)
          (omega arith) in
      elim made1.made [
        | inl (nothing, _) ↦
            let a1 = AreExtra-later s0 w.store r1.1 ends d.extra made1.store made1.keeps in
            let (s', run, served) =
              unserved (Granted pipe_given)
                (λ all. some-none (sym (made1.allowed (all 0 0) (all 0 1)) ∙ nothing)) self client
                ends s0 (record w { store = r1.1 }) a1 in
            ((none, record w { store = s' }), >>=-done _ run1 ∙ rw nothing (>>=-done _ run), served)
        | inr (something, _, _, source_has, sink_has) ↦
            let made : IsPipeMade (pipe_given 0) client.source session.client_sink w.store
                (some w.store.next) r1.1 =
              rw (← something) made1 in
            let (r, run, served) = second_pipe w r1.1 w.store.next d made source_has sink_has in
            (r, >>=-done _ run1 ∙ rw something run, served)
      ]

  -- A sink of the session becomes ready.
  turn_on_sink :
      (k : ℕ) (e : End) (s : Store)
      → IsReady s
      → s.sink_at k ≡ some e
      → (s' : Store) × (set_sink_ready k true s ≡ done s') × IsReady s' × KeepsEnds s s'
  turn_on_sink k e s d at =
      let (s', run, store, keeps, sources, free) =
        set_sink_ready-KeepsEnds k true s e d.extra.store at in
      (
        s',
        run,
        record {
          named = d.named;
          extra = AreExtra-later s0 s s' ends d.extra store keeps;
          new_source = d.new_source;
          new_sink = d.new_sink;
          client_source = d.client_source;
          client_source_is = d.client_source_is;
          client_sink = d.client_sink;
          client_sink_is = d.client_sink_is;
          source_free =
              let (end, there, bare) = d.source_free in
              (end, ap (λ m. m session.client_source) sources ∙ there, bare);
          sink_free =
              let (end, there, bare) = d.sink_free in free session.client_sink end there bare;
          client_source_free =
              let (end, there, bare) = d.client_source_free in
              (end, ap (λ m. m client.source) sources ∙ there, bare);
          client_sink_free =
              let (end, there, bare) = d.client_sink_free in free client.sink end there bare;
        },
        keeps,
      )

  pub add_session-IsServed :
      (grown : Bool) (w : World)
      → IsReady w.store
      → ends.upstream_sink ≡ some session.upstream_sink
      → ends.file_sink ≡ some session.file_sink
      → (r : Served) × (add_session pipe_given pipe_grown grown client ends session w ≡ done r)
        × IsServed (Granted pipe_given) self client s0 r
  unfolding add_session
  add_session-IsServed grown w d upstream_is file_is =
      let (ck, ck_is, _) = d.sink_free in
      let (s1, run1, d1, k1) = turn_on_sink session.client_sink ck w.store d ck_is in
      let (_, uk, uk_is) = d1.extra.upstream_sink session.upstream_sink upstream_is in
      let (s2, run2, d2, k2) = turn_on_sink session.upstream_sink uk s1 d1 uk_is in
      let (_, fk, fk_is) = d2.extra.file_sink session.file_sink file_is in
      let (s3, run3, d3, k3) = turn_on_sink session.file_sink fk s2 d2 fk_is in
      let (r, run, served) =
        attach_client-IsServed
          (record w { store = s3; sessions = vec_push grown w.sessions (some session.self) }) d3 in
      (r, >>=-done _ run1 ∙ >>=-done _ run2 ∙ >>=-done _ run3 ∙ run, served)
