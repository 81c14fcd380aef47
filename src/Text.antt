-- ===== src/Text.antt =====
-- C strings and the functions of <string.h>, <strings.h> and <stdlib.h> that the program calls.
-- A string is the list of its characters without the final NUL; `cstr` cuts an array at its NUL.
use nw_lab.Prelude.{
  ℕ, zero, suc, ◌+◌, ◌-◌, ◌*◌, ◌^◌, ◌≡◌, ◌↔◌, refl, Bool, true, false, ◌&&◌, ◌||◌, Bytes, [], ◌∷◌,
  ◌++◌, Option, none, some, Exec, done, fault, leb, ltb, ◌==◌, if◌then◌else◌, arith,
}

abbrev pub within : ℕ → ℕ → ℕ → Bool
within lo hi c = leb lo c && leb c hi

-- The characters of an array before its first NUL.
unfoldable pub cstr : Bytes → Bytes
cstr [] = []
cstr (c ∷ cs) = if c == 0 then [] else c ∷ cstr cs

-- `strcmp(s, t) == 0`.
unfoldable pub strcmp_eq : Bytes → Bytes → Bool
strcmp_eq [] [] = true
strcmp_eq (a ∷ s) (b ∷ t) = a == b && strcmp_eq s t
strcmp_eq _ _ = false

abbrev pub tolower : ℕ → ℕ
tolower c = if within b'A' b'Z' c then c + 32 else c

-- `strcasecmp(s, t) == 0`.
unfoldable pub strcasecmp_eq : Bytes → Bytes → Bool
strcasecmp_eq [] [] = true
strcasecmp_eq (a ∷ s) (b ∷ t) = tolower a == tolower b && strcasecmp_eq s t
strcasecmp_eq _ _ = false

-- `strncmp(s, t, n) == 0`.
unfoldable pub strncmp_eq : ℕ → Bytes → Bytes → Bool
strncmp_eq zero s t = true
strncmp_eq (suc n) [] [] = true
strncmp_eq (suc n) (a ∷ s) (b ∷ t) = a == b && strncmp_eq n s t
strncmp_eq (suc n) _ _ = false

-- `strrchr(s, c)`, as the offset of the last occurrence.
unfoldable pub strrchr : Bytes → ℕ → Option ℕ
strrchr [] c = none
strrchr (x ∷ s) c = elim (strrchr s c) [
  | some i ↦ some (suc i)
  | none ↦ if x == c then some 0 else none
]

-- The decimal digits at the front of a string, behind `acc`.
digits_value : ℕ → Bytes → ℕ
digits_value acc [] = acc
digits_value acc (c ∷ cs) =
    let rest = digits_value (acc * 10 + (c - b'0')) cs in if within b'0' b'9' c then rest else acc

skip_space : Bytes → Bytes
skip_space [] = []
skip_space (c ∷ cs) =
    let rest = skip_space cs in if c == b' ' || within 9 13 c then rest else c ∷ cs

-- A number as its sign (`true` for minus) and its absolute value.
signed_digits : Bytes → Bool × ℕ
signed_digits [] = (false, 0)
signed_digits (c ∷ cs) =
    if c == b'-'
    then (true, digits_value 0 cs)
    else if c == b'+'
    then (false, digits_value 0 cs)
    else (false, digits_value 0 (c ∷ cs))

-- `atoi`. Where the value is no `int` the behaviour is undefined.
unfoldable pub atoi : Bytes → Exec (Bool × ℕ)
unfolding digits_value skip_space signed_digits
atoi s =
    let (minus, n) = signed_digits (skip_space s) in
    if leb n (if minus then 2 ^ 31 else 2 ^ 31 - 1) then done (minus, n) else fault

pub strcmp_iff : (s t : Bytes) → (strcmp_eq s t ≡ true) ↔ (s ≡ t)
unfolding strcmp_eq
strcmp_iff [] [] = ground arith
strcmp_iff [] (b ∷ t) = ground arith
strcmp_iff (a ∷ s) [] = ground arith
strcmp_iff (a ∷ s) (b ∷ t) = ground (arith, strcmp_iff s t)

-- Without a NUL an array is its string.
abbrev pub NoNul : Bytes → Type 0
NoNul [] = Unit {0}
NoNul (c ∷ cs) = (ltb 0 c ≡ true) × NoNul cs

pub cstr-NoNul : (s : Bytes) → NoNul s → cstr s ≡ s
unfolding cstr
cstr-NoNul [] h = refl
cstr-NoNul (c ∷ cs) h = ground (arith, cstr-NoNul cs)

pub NoNul-append : (s t : Bytes) → NoNul s → NoNul t → NoNul (s ++ t)
NoNul-append [] t h k = k
NoNul-append (c ∷ s) t h k = (h.0, NoNul-append s t h.1 k)
