-- ===== src/Core/Session/Accept/Joined.antt =====
-- src/core/xps_session.c: a session that is created for a client.
use nw_lab.Core.Pipe.{End, Store, source_create, sink_create}
use nw_lab.Core.Pipe.Keeps.{
  KeepsEnds, KeepsEnds-refl, KeepsEnds-trans, KeepsOwners, KeepsOwners-absent, IsNew,
  source_create-IsSourceMade, sink_create-IsSinkMade,
}
use nw_lab.Core.Pipe.Links.{pipe_of_source, pipe_of_sink}
use nw_lab.Core.Pipe.Stored.{IsStore}
use nw_lab.Core.Session.{Session, Upstream}
use nw_lab.Core.Session.Accept.{Ends, create_ends}
use nw_lab.Core.Session.Accept.Extra.{IsExtra, Apart, AreExtra}
use nw_lab.Core.Session.Serve.{Served}
use nw_lab.Prelude.{ℕ, ◌≡◌, sym, ap, ◌∙◌, Option, none, some, Mallocs, some-none}

New-Extra :
    (m0 m m' m'' : ℕ → Option End) (owner : ℕ) (o : Option ℕ)
    → KeepsOwners m0 m
    → IsNew m m' owner o
    → KeepsOwners m' m''
    → IsExtra m0 m'' o
New-Extra m0 m m' m'' owner o before fresh after i e =
    let (absent, end, at, _, _) = fresh i e in
    let (end', at', _) = after i end at in (KeepsOwners-absent m0 m i before absent, end', at')

New-Apart :
    (m1 m2 m3 m4 : ℕ → Option End) (owner : ℕ) (o o' : Option ℕ)
    → IsNew m1 m2 owner o
    → KeepsOwners m2 m3
    → IsNew m3 m4 owner o'
    → Apart o o'
New-Apart m1 m2 m3 m4 owner o o' fresh between fresh' i e e' =
    let (_, end, at, _, _) = fresh i e in
    let (end', at', _) = between i end at in
    let (absent, _, _, _, _) = fresh' i e' in some-none (sym at' ∙ absent)

-- The five ends are new, and those towards the client have no pipe yet.
pub record AreMade (self : ℕ) (s0 s : Store) (ends : Ends) : Type 0 where
  pub extra : AreExtra s0 s ends
  pub client_source : IsNew s0.source_at s.source_at self ends.client_source
  pub client_sink : IsNew s0.sink_at s.sink_at self ends.client_sink
  pub old_sources : (i : ℕ) (e : End) → s0.source_at i ≡ some e → s.source_at i ≡ some e
  pub old_sinks : (i : ℕ) (e : End) → s0.sink_at i ≡ some e → s.sink_at i ≡ some e

module _ (given : Mallocs) (self : ℕ) (s : Store) (w : IsStore s) where
  pub create_ends-AreMade : AreMade self s (create_ends given self s).1 (create_ends given self s).0
  unfolding create_ends
  create_ends-AreMade =
      let s1 = (source_create (given 1) self s).1 in
      let m1 = source_create-IsSourceMade (given 1) self s w in
      let s2 = (sink_create (given 2) self s1).1 in
      let m2 = sink_create-IsSinkMade (given 2) self s1 m1.store in
      let s3 = (source_create (given 3) self s2).1 in
      let m3 = source_create-IsSourceMade (given 3) self s2 m2.store in
      let s4 = (sink_create (given 4) self s3).1 in
      let m4 = sink_create-IsSinkMade (given 4) self s3 m3.store in
      let s5 = (sink_create (given 5) self s4).1 in
      let m5 = sink_create-IsSinkMade (given 5) self s4 m4.store in
      let k2 = KeepsEnds-trans s s1 s2 m1.keeps m2.keeps in
      let k3 = KeepsEnds-trans s s2 s3 k2 m3.keeps in
      let k4 = KeepsEnds-trans s s3 s4 k3 m4.keeps in
      let k35 = KeepsEnds-trans s3 s4 s5 m4.keeps m5.keeps in
      let k25 = KeepsEnds-trans s2 s3 s5 m3.keeps k35 in
      let k15 = KeepsEnds-trans s1 s2 s5 m2.keeps k25 in
      record {
        extra = record {
          store = m5.store;
          keeps = KeepsEnds-trans s s4 s5 k4 m5.keeps;
          client_source = New-Extra _ _ _ _ self _ (KeepsEnds-refl s).sources m1.fresh k15.sources;
          upstream_source = New-Extra _ _ _ _ self _ k2.sources m3.fresh k35.sources;
          client_sink = New-Extra _ _ _ _ self _ m1.keeps.sinks m2.fresh k25.sinks;
          upstream_sink = New-Extra _ _ _ _ self _ k3.sinks m4.fresh m5.keeps.sinks;
          file_sink = New-Extra _ _ _ _ self _ k4.sinks m5.fresh (KeepsEnds-refl s5).sinks;
          sources_apart = New-Apart _ _ _ _ self _ _ m1.fresh m2.keeps.sources m3.fresh;
          client_upstream_apart = New-Apart _ _ _ _ self _ _ m2.fresh m3.keeps.sinks m4.fresh;
          client_file_apart =
              New-Apart _ _ _ _ self _ _ m2.fresh (KeepsEnds-trans s2 s3 s4 m3.keeps m4.keeps).sinks
                m5.fresh;
          upstream_file_apart =
              New-Apart _ _ _ _ self _ _ m4.fresh (KeepsEnds-refl s4).sinks m5.fresh;
        };
        client_source = λ i e.
            let (absent, end, at, owner, free) = m1.fresh i e in
            let at2 = ap (λ m. m i) m2.same_sources ∙ at in
            let at4 = ap (λ m. m i) m4.same_sources ∙ m3.old i end at2 in
            (absent, end, ap (λ m. m i) m5.same_sources ∙ at4, owner, free);
        client_sink = λ i e.
            let (absent, end, at, owner, free) = m2.fresh i e in
            let at3 = ap (λ m. m i) m3.same_sinks ∙ at in
            (
              KeepsOwners-absent s.sink_at s1.sink_at i m1.keeps.sinks absent,
              end,
              m5.old i end (m4.old i end at3),
              owner,
              free,
            );
        old_sources = λ i e at.
            let at2 = ap (λ m. m i) m2.same_sources ∙ m1.old i e at in
            let at4 = ap (λ m. m i) m4.same_sources ∙ m3.old i e at2 in
            ap (λ m. m i) m5.same_sources ∙ at4;
        old_sinks = λ i e at.
            let at2 = m2.old i e (ap (λ m. m i) m1.same_sinks ∙ at) in
            let at3 = ap (λ m. m i) m3.same_sinks ∙ at2 in m5.old i e (m4.old i e at3);
      }

-- The ends of a session stay extra while the store changes, if every end stays.
pub AreExtra-later :
    (s0 s s' : Store) (ends : Ends)
    → AreExtra s0 s ends
    → IsStore s'
    → KeepsEnds s s'
    → AreExtra s0 s' ends
AreExtra-later s0 s s' ends a w k = record {
  store = w;
  keeps = KeepsEnds-trans s0 s s' a.keeps k;
  client_source = later s0.source_at s.source_at s'.source_at _ a.client_source k.sources;
  upstream_source = later s0.source_at s.source_at s'.source_at _ a.upstream_source k.sources;
  client_sink = later s0.sink_at s.sink_at s'.sink_at _ a.client_sink k.sinks;
  upstream_sink = later s0.sink_at s.sink_at s'.sink_at _ a.upstream_sink k.sinks;
  file_sink = later s0.sink_at s.sink_at s'.sink_at _ a.file_sink k.sinks;
  sources_apart = a.sources_apart;
  client_upstream_apart = a.client_upstream_apart;
  client_file_apart = a.client_file_apart;
  upstream_file_apart = a.upstream_file_apart;
}
  where
    later :
        (m m1 m2 : ℕ → Option End) (o : Option ℕ)
        → IsExtra m m1 o
        → KeepsOwners m1 m2
        → IsExtra m m2 o
    later m m1 m2 o extra kept i e =
        let (absent, end, at) = extra i e in
        let (end', at', _) = kept i end at in (absent, end', at')

-- An end without a pipe.
abbrev pub IsFree : (ℕ → Option End) → ℕ → Type 0
IsFree m i = (e : End) × (m i ≡ some e) × (e.pipe ≡ none)

-- The same pipe joins a source and a sink.
abbrev pub AreJoined : (source sink : ℕ) → Store → Type 0
AreJoined i k s = (p : ℕ) × (pipe_of_source s i ≡ some p) × (pipe_of_sink s k ≡ some p)

-- What the creation of a session for `client` leaves of the store, where `asked` is enough for it.
pub record IsServed (asked : Type 0) (self : ℕ) (client : Upstream) (s0 : Store) (r : Served)
    : Type 0 where
  pub store : IsStore r.1.store
  pub keeps : KeepsEnds s0 r.1.store
  pub joined :
      (session : Session)
      → r.0 ≡ some session
      → (session.self ≡ self)
        × AreJoined client.source session.client_sink r.1.store
        × AreJoined session.client_source client.sink r.1.store
  pub allowed : asked → (session : Session) × (r.0 ≡ some session)
