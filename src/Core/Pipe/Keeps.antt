-- ===== src/Core/Pipe/Keeps.antt =====
-- src/core/xps_pipe.c: ends that stay where they are, and ends that are new.
use mathlib.Core.Path.{fun_ext}
use nw_lab.Core.Pipe.{End, Store, put, source_create, sink_create, source_destroy, sink_destroy}
use nw_lab.Core.Pipe.Links.{put_at}
use nw_lab.Core.Pipe.Stored.{
  IsStore, source_used, sink_used, source_create-IsStore, sink_create-IsStore,
  source_destroy-IsStore, sink_destroy-IsStore,
}
use nw_lab.Prelude.{
  ℕ, ◌≡◌, refl, sym, ap, ◌∙◌, inl, inr, Bool, true, false, Option, none, some, done, arith, ◌==◌,
  Bool-cases, Option-cases,
}

pub put-put {ℓ} :
    {A : Type ℓ} (m : ℕ → Option A) (p : ℕ) (a b : Option A) → put (put m p a) p b ≡ put m p b
put-put m p a b = fun_ext (λ j. ground arith)

-- Every end of the first table is in the second one, with its owner.
abbrev pub KeepsOwners : (m m' : ℕ → Option End) → Type 0
KeepsOwners m m' =
    (i : ℕ) (e : End) → m i ≡ some e → (e' : End) × (m' i ≡ some e') × (e'.owner ≡ e.owner)

pub put-KeepsOwners :
    (m : ℕ → Option End) (i : ℕ) (old new : End)
    → m i ≡ some old
    → new.owner ≡ old.owner
    → KeepsOwners m (put m i (some new))
put-KeepsOwners m i old new at same j e at_j = elim (Bool-cases (j == i)) [
  | inl hit ↦
      let here : j ≡ i = ground arith in
      let one : some e ≡ some old = sym at_j ∙ ap m here ∙ at in (new, rw hit, same ∙ ground arith)
  | inr miss ↦ (e, rw miss at_j, refl)
]

pub put-KeepsOwners_fresh :
    (m : ℕ → Option End) (i : ℕ) (v : Option End) → m i ≡ none → KeepsOwners m (put m i v)
put-KeepsOwners_fresh m i v fresh j e at_j = elim (Bool-cases (j == i)) [
  | inl hit ↦
      let here : j ≡ i = ground arith in
      absurd (let one : some e ≡ none = sym at_j ∙ ap m here ∙ fresh in cc)
  | inr miss ↦ (e, rw miss at_j, refl)
]

pub KeepsOwners-trans :
    (m1 m2 m3 : ℕ → Option End) → KeepsOwners m1 m2 → KeepsOwners m2 m3 → KeepsOwners m1 m3
KeepsOwners-trans m1 m2 m3 k1 k2 i e at =
    let (e2, at2, same2) = k1 i e at in
    let (e3, at3, same3) = k2 i e2 at2 in (e3, at3, same3 ∙ same2)

pub KeepsOwners-absent :
    (m m' : ℕ → Option End) (i : ℕ) → KeepsOwners m m' → m' i ≡ none → m i ≡ none
KeepsOwners-absent m m' i k gone = elim (Option-cases (m i)) [
  | inl e ↦ e
  | inr (e, at) ↦ absurd (let (e', at', same) = k i e at in let no_end = sym at' ∙ gone in cc)
]

-- Every end of the first store is in the second one, with its owner.
pub record KeepsEnds (s s' : Store) : Type 0 where
  pub sources : KeepsOwners s.source_at s'.source_at
  pub sinks : KeepsOwners s.sink_at s'.sink_at

pub KeepsEnds-refl : (s : Store) → KeepsEnds s s
KeepsEnds-refl s = record { sources = λ i e at. (e, at, refl); sinks = λ i e at. (e, at, refl) }

pub KeepsEnds-trans : (s1 s2 s3 : Store) → KeepsEnds s1 s2 → KeepsEnds s2 s3 → KeepsEnds s1 s3
KeepsEnds-trans s1 s2 s3 k1 k2 = record {
  sources = KeepsOwners-trans s1.source_at s2.source_at s3.source_at k1.sources k2.sources;
  sinks = KeepsOwners-trans s1.sink_at s2.sink_at s3.sink_at k1.sinks k2.sinks;
}

-- An end, if it was created, is there, without a pipe, and was not there before.
abbrev pub IsNew : (m m' : ℕ → Option End) (owner : ℕ) → Option ℕ → Type 0
IsNew m m' owner o =
    (i : ℕ)
    → o ≡ some i
    → (m i ≡ none) × (e : End) × (m' i ≡ some e) × (e.owner ≡ owner) × (e.pipe ≡ none)

-- What the creation of a source leaves.
pub record IsSourceMade (owner : ℕ) (s : Store) (o : Option ℕ) (s' : Store) : Type 0 where
  pub store : IsStore s'
  pub keeps : KeepsEnds s s'
  pub fresh : IsNew s.source_at s'.source_at owner o
  pub same_sinks : s'.sink_at ≡ s.sink_at
  pub old : (i : ℕ) (e : End) → s.source_at i ≡ some e → s'.source_at i ≡ some e

pub record IsSinkMade (owner : ℕ) (s : Store) (o : Option ℕ) (s' : Store) : Type 0 where
  pub store : IsStore s'
  pub keeps : KeepsEnds s s'
  pub fresh : IsNew s.sink_at s'.sink_at owner o
  pub same_sources : s'.source_at ≡ s.source_at
  pub old : (i : ℕ) (e : End) → s.sink_at i ≡ some e → s'.sink_at i ≡ some e

pub source_create-IsSourceMade :
    (given : Bool) (owner : ℕ) (s : Store)
    → IsStore s
    → IsSourceMade owner s (source_create given owner s).0 (source_create given owner s).1
unfolding source_create
source_create-IsSourceMade false owner s w = record {
  store = w;
  keeps = KeepsEnds-refl s;
  fresh = λ i e. absurd (cc);
  same_sinks = refl;
  old = λ i e at. at;
}
source_create-IsSourceMade true owner s w = record {
  store = source_create-IsStore true owner s w;
  keeps = record {
    sources = put-KeepsOwners_fresh s.source_at s.next _ (w.unused s.next (omega arith)).source_is;
    sinks = λ i e at. (e, at, refl);
  };
  fresh = λ i e.
      let here : s.next ≡ i = cc in
      rw (← here)
        ((w.unused s.next (omega arith)).source_is, _, put_at s.source_at s.next _, refl, refl);
  same_sinks = refl;
  old = λ i e at. let low = source_used s i e w at in ground arith;
}

pub sink_create-IsSinkMade :
    (given : Bool) (owner : ℕ) (s : Store)
    → IsStore s
    → IsSinkMade owner s (sink_create given owner s).0 (sink_create given owner s).1
unfolding sink_create
sink_create-IsSinkMade false owner s w = record {
  store = w;
  keeps = KeepsEnds-refl s;
  fresh = λ i e. absurd (cc);
  same_sources = refl;
  old = λ i e at. at;
}
sink_create-IsSinkMade true owner s w = record {
  store = sink_create-IsStore true owner s w;
  keeps = record {
    sources = λ i e at. (e, at, refl);
    sinks = put-KeepsOwners_fresh s.sink_at s.next _ (w.unused s.next (omega arith)).sink_is;
  };
  fresh = λ i e.
      let here : s.next ≡ i = cc in
      rw (← here)
        ((w.unused s.next (omega arith)).sink_is, _, put_at s.sink_at s.next _, refl, refl);
  same_sources = refl;
  old = λ i e at. let low = sink_used s i e w at in ground arith;
}

-- An end that was created later can be freed: the ends of the first store stay.
KeepsOwners-gone :
    (m m' : ℕ → Option End) (i : ℕ) → KeepsOwners m m' → m i ≡ none → KeepsOwners m (put m' i none)
KeepsOwners-gone m m' i k fresh j e at = elim (Bool-cases (j == i)) [
  | inl hit ↦
      let here : j ≡ i = ground arith in
      absurd (let one : some e ≡ none = sym at ∙ ap m here ∙ fresh in cc)
  | inr miss ↦ rw miss (k j e at)
]

pub source_destroy-KeepsEnds :
    (s0 s : Store) (i : ℕ) (source : End)
    → IsStore s
    → KeepsEnds s0 s
    → s0.source_at i ≡ none
    → s.source_at i ≡ some source
    → (s' : Store) × (source_destroy i s ≡ done s')
      × IsStore s'
      × KeepsEnds s0 s'
      × (s'.source_at ≡ put s.source_at i none)
      × (s'.sink_at ≡ s.sink_at)
source_destroy-KeepsEnds s0 s i source w k fresh at =
    let (s', run, w', sources, sinks) = source_destroy-IsStore s i source w at in
    (
      s',
      run,
      w',
      record {
        sources = rw sources (KeepsOwners-gone s0.source_at s.source_at i k.sources fresh);
        sinks = rw sinks k.sinks;
      },
      sources,
      sinks,
    )

pub sink_destroy-KeepsEnds :
    (s0 s : Store) (i : ℕ) (sink : End)
    → IsStore s
    → KeepsEnds s0 s
    → s0.sink_at i ≡ none
    → s.sink_at i ≡ some sink
    → (s' : Store) × (sink_destroy i s ≡ done s')
      × IsStore s'
      × KeepsEnds s0 s'
      × (s'.sink_at ≡ put s.sink_at i none)
      × (s'.source_at ≡ s.source_at)
sink_destroy-KeepsEnds s0 s i sink w k fresh at =
    let (s', run, w', sinks, sources) = sink_destroy-IsStore s i sink w at in
    (
      s',
      run,
      w',
      record {
        sources = rw sources k.sources;
        sinks = rw sinks (KeepsOwners-gone s0.sink_at s.sink_at i k.sinks fresh);
      },
      sinks,
      sources,
    )
