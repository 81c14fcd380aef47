-- ===== src/Utils/Prefix.antt =====
-- What `str_starts_with` decides: whether a path lies at or below a prefix.
use nw_lab.Prelude.{
  ℕ, suc, ◌-◌, ◌≡◌, refl, ap, ◌↔◌, ◌⊎◌, inl, inr, Bool, true, false, Bytes, [], ◌∷◌, ◌++◌, ltb,
  ◌==◌, length, get_or, arith, length-append, Bool-cases, ◌&&◌, ◌||◌, ◌∙◌,
}
use nw_lab.Text.{strncmp_eq, NoNul}
use nw_lab.Utils.{str_starts_with}

-- `str` is `prefix` and a rest that starts at a boundary: the prefix ends in a slash, or the rest
-- is empty or starts with one.
pub record IsUnder (str prefix : Bytes) : Type 0 where
  pub rest : Bytes
  pub splits : str ≡ prefix ++ rest
  pub boundary :
      ((init : Bytes) × (prefix ≡ init ++ (b'/' ∷ [])))
      ⊎ (rest ≡ [])
      ⊎ ((more : Bytes) × (rest ≡ b'/' ∷ more))

strncmp_eq-append :
    (prefix rest : Bytes) → strncmp_eq (length prefix) (prefix ++ rest) prefix ≡ true
unfolding strncmp_eq
strncmp_eq-append [] rest = refl
strncmp_eq-append (c ∷ prefix) rest = ground (arith, strncmp_eq-append prefix rest)

pub strncmp_eq-splits :
    (str prefix : Bytes)
    → strncmp_eq (length prefix) str prefix ≡ true
    → (rest : Bytes) × (str ≡ prefix ++ rest)
unfolding strncmp_eq
strncmp_eq-splits str [] h = (str, refl)
strncmp_eq-splits [] (c ∷ prefix) h = cc
strncmp_eq-splits (x ∷ str) (c ∷ prefix) h =
    let (rest, e) = strncmp_eq-splits str prefix (ground arith) in (rest, ground arith)

pub get_or-append :
    (prefix rest : Bytes) → get_or (prefix ++ rest) (length prefix) 0 ≡ get_or rest 0 0
get_or-append [] [] = refl
get_or-append [] (x ∷ rest) = refl
get_or-append (c ∷ prefix) rest = get_or-append prefix rest

-- The last character of a string that is not empty.
last-slash :
    (c : ℕ) (s : Bytes)
    → get_or (c ∷ s) (length s) 0 ≡ b'/'
    → (init : Bytes) × (c ∷ s ≡ init ++ (b'/' ∷ []))
last-slash c [] h = ([], rw h)
last-slash c (d ∷ s) h = let (init, e) = last-slash d s h in (c ∷ init, ap (◌∷◌ c) e)

slash-last :
    (init : Bytes) → get_or (init ++ (b'/' ∷ [])) (length (init ++ (b'/' ∷ [])) - 1) 0 ≡ b'/'
slash-last init =
    let e : length (init ++ (b'/' ∷ [])) - 1 ≡ length init =
      omega (arith, length-append init (b'/' ∷ [])) in
    rw (e, get_or-append init (b'/' ∷ []))

pub NoNul-rest : (prefix rest : Bytes) → NoNul (prefix ++ rest) → NoNul rest
NoNul-rest [] rest h = h
NoNul-rest (c ∷ prefix) rest h = NoNul-rest prefix rest h.1

abbrev ends_in_slash : Bytes → Bool
ends_in_slash prefix = ltb 0 (length prefix) && get_or prefix (length prefix - 1) 0 == b'/'

ends_in_slash-splits :
    (prefix : Bytes) → ends_in_slash prefix ≡ true → (init : Bytes) × (prefix ≡ init ++ (b'/' ∷ []))
ends_in_slash-splits [] h = cc
ends_in_slash-splits (c ∷ s) h =
    let e : suc (length s) - 1 ≡ length s = omega arith in
    last-slash c s (rw e at (slash (get_or (c ∷ s) (suc (length s) - 1) 0) (ground arith)))
  where
    slash : (x : ℕ) → (x == b'/') ≡ true → x ≡ b'/'
    slash x h = ground arith

splits-ends_in_slash : (init : Bytes) → ends_in_slash (init ++ (b'/' ∷ [])) ≡ true
splits-ends_in_slash init = ground (arith, slash-last init, length-append init (b'/' ∷ []))

-- A rest that starts with no NUL starts at a boundary if its first character, or the NUL behind
-- it, says so.
pub rest_boundary :
    (rest : Bytes)
    → NoNul rest
    → (get_or rest 0 0 == 0 || get_or rest 0 0 == b'/') ≡ true
    → (rest ≡ []) ⊎ ((more : Bytes) × (rest ≡ b'/' ∷ more))
rest_boundary [] n h = inl refl
rest_boundary (x ∷ more) n h = inr (more, ground (arith, n.0))

IsUnder-of_test :
    (str prefix : Bytes) → NoNul str → str_starts_with str prefix ≡ true → IsUnder str prefix
unfolding str_starts_with
IsUnder-of_test str prefix n h =
    let (rest, e) = strncmp_eq-splits str prefix (ground arith) in
    record { rest = rest; splits = e; boundary = bound rest e }
  where
    bound :
        (rest : Bytes)
        → str ≡ prefix ++ rest
        → ((init : Bytes) × (prefix ≡ init ++ (b'/' ∷ [])))
          ⊎ (rest ≡ [])
          ⊎ ((more : Bytes) × (rest ≡ b'/' ∷ more))
    bound rest e = elim (Bool-cases (ends_in_slash prefix)) [
      | inl slash ↦ inl (ends_in_slash-splits prefix slash)
      | inr open_end ↦
          let same : get_or str (length prefix) 0 ≡ get_or rest 0 0 =
            rw e (get_or-append prefix rest) in
          elim (rest_boundary rest (NoNul-rest prefix rest (rw e at n)) (ground (arith, same))) [
            | inl nil ↦ inr (inl nil)
            | inr more ↦ inr (inr more)
          ]
    ]

test_of-IsUnder : (str prefix : Bytes) → IsUnder str prefix → str_starts_with str prefix ≡ true
unfolding str_starts_with
test_of-IsUnder str prefix u = rw u.splits (by_boundary u.boundary)
  where
    long : ltb (length (prefix ++ u.rest)) (length prefix) ≡ false
    long = ground (arith, length-append prefix u.rest)

    by_boundary :
        ((init : Bytes) × (prefix ≡ init ++ (b'/' ∷ [])))
          ⊎ (u.rest ≡ [])
          ⊎ ((more : Bytes) × (u.rest ≡ b'/' ∷ more))
        → str_starts_with (prefix ++ u.rest) prefix ≡ true
    by_boundary (inl (init, e)) =
        let slash : ends_in_slash prefix ≡ true = rw e (splits-ends_in_slash init) in
        ground (arith, long, strncmp_eq-append prefix u.rest, slash)
    by_boundary (inr (inl e)) =
        let next : get_or (prefix ++ u.rest) (length prefix) 0 ≡ 0 =
          get_or-append prefix u.rest ∙ rw e in
        ground (arith, long, strncmp_eq-append prefix u.rest, next)
    by_boundary (inr (inr (more, e))) =
        let next : get_or (prefix ++ u.rest) (length prefix) 0 ≡ b'/' =
          get_or-append prefix u.rest ∙ rw e in
        ground (arith, long, strncmp_eq-append prefix u.rest, next)

-- For a string without NUL the test says exactly that the string lies at or below the prefix: it
-- is the prefix and a rest, where the prefix ends in a slash, or the rest is empty or begins with
-- one.
pub str_starts_with-IsUnder :
    (str prefix : Bytes) → NoNul str → (str_starts_with str prefix ≡ true) ↔ IsUnder str prefix
str_starts_with-IsUnder str prefix n = (IsUnder-of_test str prefix n, test_of-IsUnder str prefix)
