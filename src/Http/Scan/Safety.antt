-- ===== src/Http/Scan/Safety.antt =====
-- The rule for the parsers' loop: an invariant of the steps gives a run with no fault.
use nw_lab.Http.Scan.{
  Step, refuse, go, stop, broken, Outcome, again, failed, stopped, scan, Parse, conclude,
  parse_with,
}
use nw_lab.Http.State.{ParserState, h_start}
use nw_lab.Prelude.{
  ℕ, zero, suc, ◌+◌, ◌≤◌, ◌<◌, ◌≡◌, refl, Bytes, [], ◌∷◌, length, length-drop, drop, Exec, done,
  fault, arith, ◌⊎◌, inl, inr,
}
use nw_lab.Status.{Code, e_again, e_fail}

module _ {M : Type 0} (step : ParserState → ℕ → ℕ → M → Step M) (Inv : ParserState → ℕ → M → Type 0)
    (Good : Code → ℕ → M → Type 0) where
  -- What one step must give, at offset `p`.
  abbrev pub After : ℕ → Step M → Type 0
  After p refuse = Unit {0}
  After p (go st m) = Inv st (p + 1) m
  After p (stop c m) = Good c p m
  After p broken = ⊥

  -- What the loop gives, from offset `p` with `n` characters to read, where `k` are in the block.
  abbrev pub Ends : (p n k : ℕ) → Outcome M → Type 0
  Ends p n k (again st m) = Inv st (p + n) m × (n ≤ k)
  Ends p n k (failed m) = Unit {0}
  Ends p n k (stopped c q m) = Good c q m × (p ≤ q) × (q < p + n) × (q < p + k)

  Ends-suc : (p n k : ℕ) (o : Outcome M) → Ends (p + 1) n k o → Ends p (suc n) (suc k) o
  Ends-suc p n k (again st m) h =
      let e : p + suc n ≡ p + 1 + n = omega arith in (rw e h.0, omega arith)
  Ends-suc p n k (failed m) h = tt
  Ends-suc p n k (stopped c q m) h = (h.0, omega arith, omega arith, omega arith)

  -- A loop of steps that keep the invariant faults only by reading behind the block.
  abbrev pub Runs : (p n k : ℕ) → Exec (Outcome M) → Type 0
  Runs p n k e = ((e ≡ fault) × (k < n)) ⊎ ((o : Outcome M) × (e ≡ done o) × Ends p n k o)

  Runs-suc : (p n k : ℕ) (e : Exec (Outcome M)) → Runs (p + 1) n k e → Runs p (suc n) (suc k) e
  Runs-suc p n k e (inl (f, l)) = inl (f, omega arith)
  Runs-suc p n k e (inr (o, r, h)) = inr (o, r, Ends-suc p n k o h)

  pub scan-Runs :
      (keep : (st : ParserState) (p ch : ℕ) (m : M) → Inv st p m → After p (step st p ch m))
      (n p : ℕ) (rest : Bytes) (st : ParserState) (m : M)
      → Inv st p m
      → Runs p n (length rest) (scan step n p rest st m)
  unfolding scan
  scan-Runs keep zero p rest st m v =
      inr (again st m, refl, ((let e : p + 0 ≡ p = omega arith in rw e v), omega arith))
  scan-Runs keep (suc n) p [] st m v = inl (refl, omega arith)
  scan-Runs keep (suc n) p (ch ∷ rest) st m v =
      go_on (λ st' m' a. scan-Runs keep n (p + 1) rest st' m' a) (step st p ch m) refl
        (keep st p ch m v)
    where
      go_on :
          ((st' : ParserState) (m' : M)
            → Inv st' (p + 1) m'
            → Runs (p + 1) n (length rest) (scan step n (p + 1) rest st' m'))
          → (s : Step M) → step st p ch m ≡ s
          → After p s
          → Runs p (suc n) (suc (length rest)) (scan step (suc n) p (ch ∷ rest) st m)
      go_on later refuse e a = inr (failed m, rw (e, scan), tt)
      go_on later (stop c m') e a =
          inr (stopped c p m', rw (e, scan), (a, omega arith, omega arith, omega arith))
      go_on later broken e a = absurd a
      go_on later (go st' m') e a = rw (e, scan) (Runs-suc p n (length rest) _ (later st' m' a))

  -- What the call of a parser leaves behind.
  abbrev pub Leaves : (p n size : ℕ) → Parse M → Type 0
  Leaves p n size r =
      ((r.code ≡ e_again) × (r.pos ≡ p) × Inv r.state (p + n) r.marks × (p + n ≤ size))
      ⊎ ((r.code ≡ e_fail) × (r.pos ≡ p))
      ⊎ (Good r.code r.pos r.marks
          × (p ≤ r.pos)
          × (r.pos < p + n)
          × (r.pos < size)
          × (r.state ≡ h_start))

  conclude-Leaves :
      (p n k size : ℕ) (st : ParserState) (o : Outcome M)
      → p + k ≡ size
      → Ends p n k o
      → Leaves p n size (conclude st p o)
  conclude-Leaves p n k size st (again st' m) e h = inl (refl, refl, h.0, omega arith)
  conclude-Leaves p n k size st (failed m) e h = inr (inl (refl, refl))
  conclude-Leaves p n k size st (stopped c q m) e h = inr (inr (h.0, h.1, h.2, omega arith, refl))

  -- A parser whose steps keep the invariant, called at a position inside its block: it faults
  -- only if its `len` characters from there on do not fit.
  pub parse_with-Leaves :
      (keep : (st : ParserState) (p ch : ℕ) (m : M) → Inv st p m → After p (step st p ch m))
      (len pos : ℕ) (block : Bytes) (st : ParserState) (m : M)
      → Inv st pos m
      → pos ≤ length block
      → ((parse_with step len pos block st m ≡ fault) × (length block < pos + len))
        ⊎ ((r : Parse M) × (parse_with step len pos block st m ≡ done r)
            × Leaves pos len (length block) r)
  parse_with-Leaves keep len pos block st m v h =
      by_run (scan-Runs keep len pos (drop pos block) st m v)
    where
      left : pos + length (drop pos block) ≡ length block
      left = omega (arith, length-drop pos block)

      by_run :
          Runs pos len (length (drop pos block)) (scan step len pos (drop pos block) st m)
          → ((parse_with step len pos block st m ≡ fault) × (length block < pos + len))
            ⊎ ((r : Parse M) × (parse_with step len pos block st m ≡ done r)
                × Leaves pos len (length block) r)
      by_run (inl (f, l)) = inl (rw f, omega (arith, left))
      by_run (inr (o, run, ends)) =
          inr (conclude st pos o, rw run, conclude-Leaves pos len _ _ st o left ends)
