-- ===== src/Core/Session/Accept/Starts.antt =====
-- src/core/xps_session.c: what a session that is created leaves of the store.
use nw_lab.Core.Pipe.{Store, source_create, sink_create}
use nw_lab.Core.Pipe.Stored.{IsStore}
use nw_lab.Core.Session.{World, Upstream}
use nw_lab.Core.Session.Accept.{Ends, create_ends, new_session, start_session, session_create}
use nw_lab.Core.Session.Accept.Creates.{Granted, unserved, add_session-IsServed}
use nw_lab.Core.Session.Accept.Joined.{AreMade, create_ends-AreMade, IsFree, IsServed}
use nw_lab.Core.Pipe.Keeps.{KeepsEnds-refl}
use nw_lab.Core.Session.Serve.{Served}
use nw_lab.Prelude.{
  ℕ, ◌≡◌, refl, inl, inr, Bool, true, false, Option, none, some, done, Mallocs, >>=-done,
  Bool-cases,
}

abbrev all_made : (cs ck us uk fk : Option ℕ) → Bool
all_made (some cs) (some ck) (some us) (some uk) (some fk) = true
all_made _ _ _ _ _ = false

create_ends-all_made :
    (given : Mallocs) (self : ℕ) (s : Store)
    → ((n : ℕ) → given n ≡ true)
    → let ends = (create_ends given self s).0 in
      all_made ends.client_source ends.client_sink ends.upstream_source ends.upstream_sink
        ends.file_sink
      ≡ true
unfolding create_ends source_create sink_create
create_ends-all_made given self s all = rw (all 1, all 2, all 3, all 4, all 5) refl

-- Every allocation of a session, its ends and its pipes succeeds.
abbrev pub AllGranted : Mallocs → (ℕ → Mallocs) → Type 0
AllGranted given pipe_given = ((n : ℕ) → given n ≡ true) × Granted pipe_given

module _ (given : Mallocs) (pipe_given : ℕ → Mallocs) (pipe_grown : Mallocs) (grown : Bool)
    (self : ℕ) (client : Upstream) (w : World) (store : IsStore w.store)
    (source_free : IsFree w.store.source_at client.source)
    (sink_free : IsFree w.store.sink_at client.sink) where
  started :
      (s : Store) (ends : Ends) (cs ck us uk fk : Option ℕ)
      → ends.client_source ≡ cs
      → ends.client_sink ≡ ck
      → ends.upstream_sink ≡ uk
      → ends.file_sink ≡ fk
      → (AllGranted given pipe_given → all_made cs ck us uk fk ≡ true)
      → AreMade self w.store s ends
      → IsFree s.source_at client.source
      → IsFree s.sink_at client.sink
      → (r : Served) × (start_session pipe_given pipe_grown grown self client ends cs ck us uk fk
            (record w { store = s })
          ≡ done r)
        × IsServed (AllGranted given pipe_given) self client w.store r
  unfolding start_session
  started s ends (some cs) (some ck) (some us) (some uk) (some fk) cs_is ck_is uk_is fk_is there
        made f g =
      let (cs_absent, cs_end, cs_at, _, cs_free) = made.client_source cs cs_is in
      let (ck_absent, ck_end, ck_at, _, ck_free) = made.client_sink ck ck_is in
      let (r, run, served) =
        add_session-IsServed pipe_given pipe_grown self client ends
          (new_session self cs ck us uk fk) w.store grown (record w { store = s })
          (record {
            named = refl;
            extra = made.extra;
            new_source = cs_absent;
            new_sink = ck_absent;
            client_source = source_free.0;
            client_source_is = source_free.1;
            client_sink = sink_free.0;
            client_sink_is = sink_free.1;
            source_free = (cs_end, cs_at, cs_free);
            sink_free = (ck_end, ck_at, ck_free);
            client_source_free = f;
            client_sink_free = g;
          })
          uk_is fk_is in
      (
        r,
        run,
        record {
          store = served.store;
          keeps = served.keeps;
          joined = served.joined;
          allowed = λ all. served.allowed all.1;
        },
      )
  started s ends cs ck us uk fk cs_is ck_is uk_is fk_is there made f g =
      let (s', run, served) =
        unserved (AllGranted given pipe_given) (λ all. let e = there all in cc) self client ends
          w.store (record w { store = s }) made.extra in
      ((none, record w { store = s' }), >>=-done _ run, served)

  -- Where both ends of the client are there and have no pipe, a session is created for it, or not, as the
  -- allocations answer, and the call returns. The links stay mutual, and every end that was there stays,
  -- with its owner. A session that is created has the address that it was given, and two pipes join it
  -- to its client: one leads from the client's source to its sink, one from its source to the client's
  -- sink. It is created where every allocation succeeds.
  pub session_create-IsServed :
      (r : Served) × (session_create given pipe_given pipe_grown grown self client w ≡ done r)
      × IsServed (AllGranted given pipe_given) self client w.store r
  unfolding session_create
  session_create-IsServed = elim (Bool-cases (given 0)) [
    | inr refused ↦ (
      (none, w),
      rw (refused, session_create) refl,
      record {
        store = store;
        keeps = KeepsEnds-refl w.store;
        joined = λ session e. absurd (cc);
        allowed = λ all. absurd (let e = all.0 0 in cc);
      },
    )
    | inl allowed ↦
        let (ends, s1) = create_ends given self w.store in
        let made = create_ends-AreMade given self w.store store in
        let (r, run, served) =
          started s1 ends ends.client_source ends.client_sink ends.upstream_source
            ends.upstream_sink ends.file_sink refl refl refl refl
            (λ all. create_ends-all_made given self w.store all.0) made
            (source_free.0, made.old_sources client.source _ source_free.1, source_free.2)
            (sink_free.0, made.old_sinks client.sink _ sink_free.1, sink_free.2) in
        (r, rw (allowed, session_create) run, served)
  ]
