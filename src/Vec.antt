-- ===== src/Vec.antt =====
-- The vectors of `lib/vec` as the program uses them, and `vec_filter_null` of
-- src/utils/xps_utils.c. A vector is the list of its elements. The library itself is not modelled:
-- whether its growth succeeds is an answer that the caller's model takes.
use nw_lab.Prelude.{
  ℕ, ◌+◌, ◌≡◌, Bool, true, List, [], ◌∷◌, ◌++◌, Option, none, some, Mallocs, if◌then◌else◌,
  append_assoc, append-nil,
}

module _ {ℓ} {A : Type ℓ} where
  -- `vec_push`: the element goes to the end, or is not stored if the vector could not grow.
  abbrev pub vec_push : (grown : Bool) → List A → A → List A
  vec_push grown v x = if grown then v ++ (x ∷ []) else v

module _ {ℓ} {A : Type ℓ} where
  -- The first loop of `vec_filter_null`, from index `i` of the vector.
  push_present : Mallocs → ℕ → List (Option A) → List (Option A) → List (Option A)
  push_present grown i [] temp = temp
  push_present grown i (none ∷ v) temp = push_present grown (i + 1) v temp
  push_present grown i (some x ∷ v) temp =
      push_present grown (i + 1) v (vec_push (grown i) temp (some x))

  -- The second loop. `vec_clear` kept the storage of the vector, so that its pushes never grow it.
  push_all : List (Option A) → List (Option A) → List (Option A)
  push_all [] v = v
  push_all (x ∷ temp) v = push_all temp (vec_push true v x)

  unfoldable pub vec_filter_null : Mallocs → List (Option A) → List (Option A)
  unfolding push_present push_all
  vec_filter_null grown v = push_all (push_present grown 0 v []) []

  -- The elements that are not NULL, in order.
  abbrev pub present : List (Option A) → List A
  present [] = []
  present (none ∷ v) = present v
  present (some x ∷ v) = x ∷ present v

  abbrev pub all_some : List A → List (Option A)
  all_some [] = []
  all_some (x ∷ xs) = some x ∷ all_some xs

  push_all_lem : (temp v : List (Option A)) → push_all temp v ≡ v ++ temp
  unfolding push_all
  push_all_lem [] v = simp append-nil
  push_all_lem (x ∷ temp) v = simp (push_all_lem temp, append_assoc)

  push_present_lem :
      (grown : Mallocs) (i : ℕ) (v temp : List (Option A))
      → ((n : ℕ) → grown n ≡ true)
      → push_present grown i v temp ≡ temp ++ all_some (present v)
  unfolding push_present
  push_present_lem grown i [] temp h = simp append-nil
  push_present_lem grown i (none ∷ v) temp h = push_present_lem grown (i + 1) v temp h
  push_present_lem grown i (some x ∷ v) temp h =
      rw (h i) (simp (push_present_lem grown (i + 1) v _ h, append_assoc))

  -- Where every push of the first loop finds room, exactly the NULLs go.
  pub vec_filter_null_lem :
      (grown : Mallocs) (v : List (Option A))
      → ((n : ℕ) → grown n ≡ true)
      → vec_filter_null grown v ≡ all_some (present v)
  unfolding vec_filter_null
  vec_filter_null_lem grown v h =
      rw (push_all_lem (push_present grown 0 v []) []) (push_present_lem grown 0 v [] h)
