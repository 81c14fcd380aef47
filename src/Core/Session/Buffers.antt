-- ===== src/Core/Session/Buffers.antt =====
-- src/core/xps_session.c: the buffers of a session and which of its ends are ready.
use nw_lab.Buffer.{Buffer}
use nw_lab.Core.Pipe.{End, Store, put}
use nw_lab.Core.Pipe.Links.{Linked, Mutual-same, link_of-kept, put_at}
use nw_lab.Core.Pipe.Ready.{set_source_ready_lem, set_sink_ready_lem}
use nw_lab.Core.Session.{Session, set_to_client_buff, is_set}
use nw_lab.Prelude.{ℕ, ◌≡◌, ◌≢◌, refl, sym, ◌∙◌, not, Option, some, done, arith}

put_other : {A : Type 0} (m : ℕ → Option A) (p q : ℕ) (v : Option A) → q ≢ p → put m p v q ≡ m q
put_other m p q v n = ground arith

-- The buffer for the client is set, or taken away, on a session whose ends are all there: its
-- source towards the client is ready exactly if there is a buffer, and the sinks that fill it are
-- ready exactly if there is none; all links stay mutual, and no pipe changes.
pub set_to_client_buff-Linked :
    (session : Session) (s : Store) (buff : Option Buffer) (cs uk fk : End)
    → Linked s
    → s.source_at session.client_source ≡ some cs
    → s.sink_at session.upstream_sink ≡ some uk
    → s.sink_at session.file_sink ≡ some fk
    → session.file_sink ≢ session.upstream_sink
    → (s' : Store) × (set_to_client_buff buff session s
        ≡ done (record session { to_client_buff = buff }, s'))
      × Linked s'
      × (s'.pipe_at ≡ s.pipe_at)
      × (s'.source_at session.client_source ≡ some (record cs { ready = is_set buff }))
      × (s'.sink_at session.upstream_sink ≡ some (record uk { ready = not (is_set buff) }))
      × (s'.sink_at session.file_sink ≡ some (record fk { ready = not (is_set buff) }))
unfolding set_to_client_buff
set_to_client_buff-Linked session s buff cs uk fk l at_cs at_uk at_fk other =
    let full = is_set buff in
    let c = session.client_source in
    let u = session.upstream_sink in
    let f = session.file_sink in
    let sources = put s.source_at c (some (record cs { ready = full })) in
    let sinks = put s.sink_at u (some (record uk { ready = not full })) in
    let s1 : Store = record s { source_at = sources } in
    let s2 : Store = record s1 { sink_at = sinks } in
    let still : s2.sink_at f ≡ some fk = put_other s.sink_at u f _ other ∙ at_fk in
    let s3 : Store = record s2 { sink_at = put sinks f (some (record fk { ready = not full })) } in
    (
      s3,
      rw (set_source_ready_lem c full s cs at_cs) (
          rw (set_sink_ready_lem u (not full) s1 uk at_uk)
            (rw (set_sink_ready_lem f (not full) s2 fk still))),
      record {
        sources =
            Mutual-same _ _ _ _ l.sources (λ p. refl)
              (link_of-kept (λ x. x.pipe) s.source_at c _ (rw at_cs));
        sinks =
            Mutual-same _ _ _ _ l.sinks (λ p. refl)
              (λ i.
                link_of-kept (λ x. x.pipe) sinks f _ (rw still) i
                ∙ link_of-kept (λ x. x.pipe) s.sink_at u _ (rw at_uk) i);
      },
      refl,
      put_at s.source_at c _,
      put_other sinks f u _ (λ e. other (sym e)) ∙ put_at s.sink_at u _,
      put_at sinks f _,
    )
