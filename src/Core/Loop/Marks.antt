-- ===== src/Core/Loop/Marks.antt =====
-- src/core/xps_pipe.c: the list of pipes, in which a pipe that was destroyed is NULL.
use nw_lab.Core.Pipe.{mark_null}
use nw_lab.Vec.{vec_push}
use nw_lab.Prelude.{
  Bool, true, false, ap, ℕ, suc, ◌+◌, ◌≡◌, ◌≢◌, refl, sym, ◌∙◌, ◌⊎◌, inl, inr, List, [], ◌∷◌,
  Option, none, some, zero, ◌<◌, if◌then◌else◌, ◌==◌, length, get_elem?, arith, Bool-cases,
}

abbrev pub Has : ℕ → List (Option ℕ) → Type 0
Has p [] = ⊥
Has p (none ∷ ps) = Has p ps
Has p (some q ∷ ps) = (q ≡ p) ⊎ Has p ps

-- No pipe comes twice.
abbrev pub Unique : List (Option ℕ) → Type 0
Unique [] = Unit {0}
Unique (none ∷ ps) = Unique ps
Unique (some q ∷ ps) = (¬ Has q ps) × Unique ps

abbrev pub nulls : List (Option ℕ) → ℕ
nulls [] = 0
nulls (none ∷ ps) = suc (nulls ps)
nulls (some q ∷ ps) = nulls ps

pub get_elem?-Has : (ps : List (Option ℕ)) (i p : ℕ) → get_elem? ps i ≡ some (some p) → Has p ps
get_elem?-Has [] i p h = cc
get_elem?-Has (none ∷ ps) zero p h = cc
get_elem?-Has (some q ∷ ps) zero p h = inl cc
get_elem?-Has (none ∷ ps) (suc i) p h = get_elem?-Has ps i p h
get_elem?-Has (some q ∷ ps) (suc i) p h = inr (get_elem?-Has ps i p h)

pub get_elem?-some_lt :
    (ps : List (Option ℕ)) (i : ℕ) {slot : Option ℕ} → get_elem? ps i ≡ some slot → i < length ps
get_elem?-some_lt [] i h = cc
get_elem?-some_lt (x ∷ ps) zero h = omega arith
get_elem?-some_lt (x ∷ ps) (suc i) h = omega (arith, get_elem?-some_lt ps i h)

pub length-mark_null : (p : ℕ) (ps : List (Option ℕ)) → length (mark_null p ps).1 ≡ length ps
unfolding mark_null
length-mark_null p [] = refl
length-mark_null p (none ∷ ps) = ground (arith, length-mark_null p ps)
length-mark_null p (some q ∷ ps) = ground (arith, length-mark_null p ps)

pub mark_null-Has :
    (p q : ℕ) (ps : List (Option ℕ)) → Unique ps → Has q (mark_null p ps).1 → Has q ps × (q ≢ p)
unfolding mark_null
mark_null-Has p q [] u h = absurd h
mark_null-Has p q (none ∷ ps) u h = mark_null-Has p q ps u h
mark_null-Has p q (some r ∷ ps) u h = elim (Bool-cases (r == p)) [
  | inl hit ↦
      let e : r ≡ p = ground arith in
      let later : Has q ps = rw hit at h in (inr later, λ x. u.0 (rw (e ∙ sym x) later))
  | inr miss ↦
      let here : (r ≡ q) ⊎ Has q (mark_null p ps).1 = rw miss at h in
      elim here [
        | inl e ↦ (inl e, λ x. ground arith)
        | inr later ↦ let (there, apart) = mark_null-Has p q ps u.1 later in (inr there, apart)
      ]
]

pub mark_null-Unique : (p : ℕ) (ps : List (Option ℕ)) → Unique ps → Unique (mark_null p ps).1
unfolding mark_null
mark_null-Unique p [] u = tt
mark_null-Unique p (none ∷ ps) u = mark_null-Unique p ps u
mark_null-Unique p (some r ∷ ps) u = elim (Bool-cases (r == p)) [
  | inl hit ↦ rw hit u.1
  | inr miss ↦ rw miss ((λ h. u.0 (mark_null-Has p r ps u.1 h).0), mark_null-Unique p ps u.1)
]

-- The number of NULLs grows by one exactly if the pipe was there.
pub nulls-mark_null :
    (p : ℕ) (ps : List (Option ℕ))
    → nulls (mark_null p ps).1 ≡ (if (mark_null p ps).0 then nulls ps + 1 else nulls ps)
unfolding mark_null
nulls-mark_null p [] = refl
nulls-mark_null p (none ∷ ps) = ground (arith, nulls-mark_null p ps)
nulls-mark_null p (some r ∷ ps) = ground (arith, nulls-mark_null p ps)

pub mark_null-found : (p : ℕ) (ps : List (Option ℕ)) → Has p ps → (mark_null p ps).0 ≡ true
unfolding mark_null
mark_null-found p [] h = absurd h
mark_null-found p (none ∷ ps) h = mark_null-found p ps h
mark_null-found p (some q ∷ ps) h = elim (Bool-cases (q == p)) [
  | inl hit ↦ rw hit refl
  | inr miss ↦ elim h [
    | inl e ↦ absurd (ground arith)
    | inr later ↦ rw miss (mark_null-found p ps later)
  ]
]

-- A NULL takes the place of a pipe that was there.
pub nulls-mark_null_found :
    (p : ℕ) (ps : List (Option ℕ)) → Has p ps → nulls (mark_null p ps).1 ≡ nulls ps + 1
nulls-mark_null_found p ps h = ground (arith, nulls-mark_null p ps, mark_null-found p ps h)

pub vec_push-Has :
    (grown : Bool) (ps : List (Option ℕ)) (p q : ℕ)
    → Has q (vec_push grown ps (some p))
    → Has q ps ⊎ (p ≡ q)
vec_push-Has false ps p q h = inl h
vec_push-Has true [] p q h = elim h [ inl e ↦ inr e | inr x ↦ absurd x ]
vec_push-Has true (none ∷ ps) p q h = vec_push-Has true ps p q h
vec_push-Has true (some x ∷ ps) p q h = elim h [
  | inl e ↦ inl (inl e)
  | inr later ↦ elim (vec_push-Has true ps p q later) [ inl a ↦ inl (inr a) | inr b ↦ inr b ]
]

pub vec_push-Unique :
    (grown : Bool) (ps : List (Option ℕ)) (p : ℕ)
    → (¬ Has p ps)
    → Unique ps
    → Unique (vec_push grown ps (some p))
vec_push-Unique false ps p apart u = u
vec_push-Unique true [] p apart u = (λ h. h, tt)
vec_push-Unique true (none ∷ ps) p apart u = vec_push-Unique true ps p apart u
vec_push-Unique true (some x ∷ ps) p apart u = (
  λ h. elim (vec_push-Has true ps p x h) [ inl a ↦ u.0 a | inr e ↦ apart (inl (sym e)) ],
  vec_push-Unique true ps p (λ h. apart (inr h)) u.1,
)

pub nulls-vec_push :
    (grown : Bool) (ps : List (Option ℕ)) (p : ℕ) → nulls (vec_push grown ps (some p)) ≡ nulls ps
nulls-vec_push false ps p = refl
nulls-vec_push true [] p = refl
nulls-vec_push true (none ∷ ps) p = ap suc (nulls-vec_push true ps p)
nulls-vec_push true (some x ∷ ps) p = nulls-vec_push true ps p

-- Another element stays in the list.
pub Has-mark_null : (p q : ℕ) (ps : List (Option ℕ)) → q ≢ p → Has q ps → Has q (mark_null p ps).1
unfolding mark_null
Has-mark_null p q [] differ h = h
Has-mark_null p q (none ∷ ps) differ h = Has-mark_null p q ps differ h
Has-mark_null p q (some r ∷ ps) differ h = elim (Bool-cases (r == p)) [
  | inl hit ↦ elim h [
    | inl here ↦ absurd (differ (sym here ∙ ground arith))
    | inr later ↦ rw hit later
  ]
  | inr miss ↦ elim h [
    | inl here ↦ rw miss (inl here)
    | inr later ↦ rw miss (inr (Has-mark_null p q ps differ later))
  ]
]

pub Has-vec_push :
    (grown : Bool) (ps : List (Option ℕ)) (p q : ℕ) → Has q ps → Has q (vec_push grown ps (some p))
Has-vec_push false ps p q h = h
Has-vec_push true [] p q h = absurd h
Has-vec_push true (none ∷ ps) p q h = Has-vec_push true ps p q h
Has-vec_push true (some r ∷ ps) p q h = elim h [
  | inl here ↦ inl here
  | inr later ↦ inr (Has-vec_push true ps p q later)
]
