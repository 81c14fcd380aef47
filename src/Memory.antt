-- ===== src/Memory.antt =====
-- Blocks of bytes and the C calls that copy within and between them.
use nw_lab.Prelude.{
  append_assoc, sym, ℕ, zero, suc, ◌+◌, ◌-◌, ◌≤◌, ◌≡◌, refl, ap, ◌∙◌, Bool, ◌&&◌, List, [], ◌∷◌,
  ◌++◌, Bytes, Exec, done, access, ◌>>◌, leb, length, take, drop, length-append, length-take,
  length-drop, length-take, length-drop, length-append, arith, Option, some,
}

-- `memcpy(dst + at, src + from, n)`, and `memmove` where `src` is `dst`.
unfoldable pub memcpy : (dst : Bytes) (at : ℕ) (src : Bytes) (from n : ℕ) → Exec Bytes
memcpy dst at src from n = do
  access (leb (at + n) (length dst) && leb (from + n) (length src))
  done (take at dst ++ (take n (drop from src) ++ drop (at + n) dst))

-- What `malloc` answers: whether the small struct is given, and which block a buffer gets.
pub record Alloc : Type 0 where
  pub struct : Bool
  pub block : ℕ → Option Bytes

-- What the code relies on: a block that is given has the length that was asked for.
abbrev pub Sized : Alloc → Type 0
Sized a = (n : ℕ) (b : Bytes) → a.block n ≡ some b → length b ≡ n

pub memcpy_lem :
    (dst : Bytes) (at : ℕ) (src : Bytes) (from n : ℕ)
    → at + n ≤ length dst
    → from + n ≤ length src
    → memcpy dst at src from n ≡ done (take at dst ++ (take n (drop from src) ++ drop (at + n) dst))
unfolding memcpy
memcpy_lem dst at src from n h k = ground arith

module _ {ℓ} {A : Type ℓ} where
  pub take-append_le : (n : ℕ) (xs ys : List A) → n ≤ length xs → take n (xs ++ ys) ≡ take n xs
  take-append_le zero xs ys h = refl
  take-append_le (suc n) [] ys h = elim h [ ]
  take-append_le (suc n) (x ∷ xs) ys h = ap (◌∷◌ x) (take-append_le n xs ys (omega arith))

  pub take-append_add : (n : ℕ) (xs ys : List A) → take (length xs + n) (xs ++ ys) ≡ xs ++ take n ys
  take-append_add n [] ys = let e : 0 + n ≡ n = omega arith in ap (λ k. take k ys) e
  take-append_add n (x ∷ xs) ys =
      let e : suc (length xs) + n ≡ suc (length xs + n) = omega arith in
      rw e (ap (◌∷◌ x) (take-append_add n xs ys))

  pub drop-append_add : (n : ℕ) (xs ys : List A) → drop (length xs + n) (xs ++ ys) ≡ drop n ys
  drop-append_add n [] ys = let e : 0 + n ≡ n = omega arith in ap (λ k. drop k ys) e
  drop-append_add n (x ∷ xs) ys =
      let e : suc (length xs) + n ≡ suc (length xs + n) = omega arith in
      rw e (drop-append_add n xs ys)

  pub drop-append_all : (xs ys : List A) → drop (length xs) (xs ++ ys) ≡ ys
  drop-append_all [] ys = refl
  drop-append_all (x ∷ xs) ys = drop-append_all xs ys

  pub drop-append_le :
      (n : ℕ) (xs ys : List A) → n ≤ length xs → drop n (xs ++ ys) ≡ drop n xs ++ ys
  drop-append_le zero xs ys h = refl
  drop-append_le (suc n) [] ys h = elim h [ ]
  drop-append_le (suc n) (x ∷ xs) ys h = drop-append_le n xs ys (omega arith)

  pub take_all : (n : ℕ) (xs : List A) → length xs ≤ n → take n xs ≡ xs
  take_all zero [] h = refl
  take_all zero (x ∷ xs) h = elim h [ ]
  take_all (suc n) [] h = refl
  take_all (suc n) (x ∷ xs) h = ap (◌∷◌ x) (take_all n xs (omega arith))

  pub take-take : (n m : ℕ) (xs : List A) → n ≤ m → take n (take m xs) ≡ take n xs
  take-take zero m xs h = refl
  take-take (suc n) zero xs h = elim h [ ]
  take-take (suc n) (suc m) [] h = refl
  take-take (suc n) (suc m) (x ∷ xs) h = ap (◌∷◌ x) (take-take n m xs (omega arith))

  pub take-drop : (n m : ℕ) (xs : List A) → n ≤ m → take (m - n) (drop n xs) ≡ drop n (take m xs)
  take-drop zero m xs h = let e : m - 0 ≡ m = omega arith in ap (λ k. take k xs) e
  take-drop (suc n) zero xs h = elim h [ ]
  take-drop (suc n) (suc m) [] h = let e : suc m - suc n ≡ m - n = omega arith in rw e (nil (m - n))
    where
      nil : (k : ℕ) → take k (let e : List A = [] in e) ≡ []
      nil zero = refl
      nil (suc k) = refl
  take-drop (suc n) (suc m) (x ∷ xs) h =
      let e : suc m - suc n ≡ m - n = omega arith in rw e (take-drop n m xs (omega arith))

-- Copying `n` bytes of `src` behind the first `at` bytes of `dst`.
copied_bytes :
    (dst : Bytes) (at : ℕ) (x : Bytes) (n : ℕ)
    → at + n ≤ length dst
    → length x ≡ n
    → let out = take at dst ++ (x ++ drop (at + n) dst) in
      (take (at + n) out ≡ take at dst ++ x) × (length out ≡ length dst)
copied_bytes dst at x n h e = (
  take-pieces (take at dst) x (drop (at + n) dst) (at + n) (omega (arith, length-take at dst)),
  omega (
    arith,
    length-append (take at dst) (x ++ drop (at + n) dst),
    length-append x (drop (at + n) dst),
    length-take at dst,
    length-drop (at + n) dst,
  ),
)
  where
    take-pieces :
        (x y z : Bytes) (m : ℕ) → m ≡ length x + length y → take m (x ++ (y ++ z)) ≡ x ++ y
    take-pieces x y z m e =
        rw (e, take-append_add (length y) x (y ++ z))
          (ap (◌++◌ x)
            (take-append_le (length y) y z (omega arith) ∙ take_all (length y) y (omega arith)))

pub memcpy_front :
    (dst : Bytes) (at : ℕ) (src : Bytes) (n : ℕ)
    → at + n ≤ length dst
    → n ≤ length src
    → (out : Bytes) × (memcpy dst at src 0 n ≡ done out)
      × (take (at + n) out ≡ take at dst ++ take n src)
      × (length out ≡ length dst)
memcpy_front dst at src n h k =
    let (front, same) = copied_bytes dst at (take n src) n h (omega (arith, length-take n src)) in
    (
      take at dst ++ (take n src ++ drop (at + n) dst),
      memcpy_lem dst at src 0 n h (omega arith),
      front,
      same,
    )

-- Copying to the start of `dst`.
pub memcpy_tail :
    (dst src : Bytes) (from n : ℕ)
    → n ≤ length dst
    → from + n ≤ length src
    → (out : Bytes) × (memcpy dst 0 src from n ≡ done out)
      × (take n out ≡ take n (drop from src))
      × (length out ≡ length dst)
memcpy_tail dst src from n h k =
    let (front, same) =
      copied_bytes dst 0 (take n (drop from src)) n (omega arith)
        (omega (arith, length-take n (drop from src), length-drop from src)) in
    (
      take n (drop from src) ++ drop (0 + n) dst,
      memcpy_lem dst 0 src from n (omega arith) k,
      (let e : n ≡ 0 + n = omega arith in
            ap (λ k. take k (take n (drop from src) ++ drop (0 + n) dst)) e)
          ∙ front,
      same,
    )

-- Copying the first bytes of `src` behind `xs`, where there is room.
pub memcpy_next :
    (xs tail src : Bytes) (at n : ℕ)
    → at ≡ length xs
    → n ≤ length src
    → n ≤ length tail
    → memcpy (xs ++ tail) at src 0 n ≡ done ((xs ++ take n src) ++ drop n tail)
memcpy_next xs tail src at n ea en h =
    memcpy_lem (xs ++ tail) at src 0 n (omega (arith, length-append xs tail)) (omega arith)
    ∙ ap done pieces
  where
    front : take at (xs ++ tail) ≡ xs
    front =
        rw ea
          (take-append_le (length xs) xs tail (omega arith) ∙ take_all (length xs) xs (omega arith))

    back : drop (at + n) (xs ++ tail) ≡ drop n tail
    back = rw ea (drop-append_add n xs tail)

    pieces :
        take at (xs ++ tail) ++ (take n (drop 0 src) ++ drop (at + n) (xs ++ tail))
        ≡ (xs ++ take n src) ++ drop n tail
    pieces = rw (front, back) (sym (append_assoc xs (take n src) (drop n tail)))

-- The same for all of `src`.
pub memcpy_all :
    (xs tail src : Bytes) (at : ℕ)
    → at ≡ length xs
    → length src ≤ length tail
    → memcpy (xs ++ tail) at src 0 (length src) ≡ done ((xs ++ src) ++ drop (length src) tail)
memcpy_all xs tail src at ea h =
    memcpy_next xs tail src at (length src) ea (omega arith) h
    ∙ ap (λ x. done ((xs ++ x) ++ drop (length src) tail)) (take_all (length src) src (omega arith))

-- A block whose front is overwritten by all the bytes.
pub memcpy_fill :
    (block bytes : Bytes)
    → length bytes ≤ length block
    → (out : Bytes) × (memcpy block 0 bytes 0 (length bytes) ≡ done out)
      × (take (length bytes) out ≡ bytes)
      × (length out ≡ length block)
memcpy_fill block bytes short =
    let (out, copied, front, same) =
      memcpy_front block 0 bytes (length bytes) (omega arith) (omega arith) in
    let e : length bytes ≡ 0 + length bytes = omega arith in
    (
      out,
      copied,
      ap (λ n. take n out) e ∙ front ∙ take_all (length bytes) bytes (omega arith),
      same,
    )
