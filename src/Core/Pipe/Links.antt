-- ===== src/Core/Pipe/Links.antt =====
-- src/core/xps_pipe.c: the links between pipes and their ends.
use nw_lab.Core.Pipe.{Store, put}
use nw_lab.Prelude.{ℕ, ◌≡◌, refl, Option, none, some, ◌==◌, arith, Bool-cases, inl, inr}

-- Two tables of links that are each other's inverse.
abbrev pub Mutual : (f g : ℕ → Option ℕ) → Type 0
Mutual f g = (p i : ℕ) → (f p ≡ some i → g i ≡ some p) × (g i ≡ some p → f p ≡ some i)

pub Mutual-join :
    (f g : ℕ → Option ℕ) (p i : ℕ)
    → Mutual f g
    → f p ≡ none
    → g i ≡ none
    → Mutual (put f p (some i)) (put g i (some p))
Mutual-join f g p i m fp gi q j = ground (arith, m q j, m p j, m q i, fp, gi)

pub Mutual-part :
    (f g : ℕ → Option ℕ) (p i : ℕ)
    → Mutual f g
    → f p ≡ some i
    → Mutual (put f p none) (put g i none)
Mutual-part f g p i m fp q j = ground (arith, m q j, m p j, m q i, m p i, fp)

pub Mutual-same :
    (f g f' g' : ℕ → Option ℕ)
    → Mutual f g
    → ((p : ℕ) → f' p ≡ f p)
    → ((i : ℕ) → g' i ≡ g i)
    → Mutual f' g'
Mutual-same f g f' g' m ef eg p i = rw (ef p, eg i) (m p i)

-- The link in a field of a struct, none where the struct is not there.
abbrev pub link_of {ℓ} : {A : Type ℓ} → (A → Option ℕ) → Option A → Option ℕ
link_of field none = none
link_of field (some a) = field a

pub link_of-put {ℓ} :
    {A : Type ℓ} (field : A → Option ℕ) (m : ℕ → Option A) (p : ℕ) (v : Option A) (j : ℕ)
    → link_of field (put m p v j) ≡ put (λ q. link_of field (m q)) p (link_of field v) j
link_of-put field m p v j = elim (Bool-cases (j == p)) [ inl e ↦ rw e | inr e ↦ rw e ]

-- A struct that is replaced by one with the same link.
pub link_of-kept {ℓ} :
    {A : Type ℓ} (field : A → Option ℕ) (m : ℕ → Option A) (p : ℕ) (b : Option A)
    → link_of field b ≡ link_of field (m p)
    → (j : ℕ) → link_of field (put m p b j) ≡ link_of field (m j)
link_of-kept field m p b same j = elim (Bool-cases (j == p)) [
  | inl e ↦ let at : j ≡ p = ground arith in rw e (rw at same)
  | inr e ↦ rw e
]

-- What a link leads from is there.
pub linked_end {ℓ} :
    {A : Type ℓ} (field : A → Option ℕ) (o : Option A) {i : ℕ}
    → link_of field o ≡ some i
    → (a : A) × (o ≡ some a) × (field a ≡ some i)
linked_end field none e = cc
linked_end field (some a) e = (a, refl, e)

pub put_at {ℓ} : {A : Type ℓ} (m : ℕ → Option A) (p : ℕ) (v : Option A) → put m p v p ≡ v
put_at m p v = ground arith

abbrev pub source_of : Store → ℕ → Option ℕ
source_of s p = link_of (λ pipe. pipe.source) (s.pipe_at p)

abbrev pub pipe_of_source : Store → ℕ → Option ℕ
pipe_of_source s i = link_of (λ source. source.pipe) (s.source_at i)

abbrev pub sink_of : Store → ℕ → Option ℕ
sink_of s p = link_of (λ pipe. pipe.sink) (s.pipe_at p)

abbrev pub pipe_of_sink : Store → ℕ → Option ℕ
pipe_of_sink s i = link_of (λ sink. sink.pipe) (s.sink_at i)

-- A pipe's source has that pipe, a source's pipe has that source, the same for sinks: no link
-- leads to a struct that was freed.
pub record Linked (s : Store) : Type 0 where
  pub sources : Mutual (source_of s) (pipe_of_source s)
  pub sinks : Mutual (sink_of s) (pipe_of_sink s)
