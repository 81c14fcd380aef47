-- ===== src/Http/Scan/More.antt =====
-- A loop that stops early does not care how many characters it was allowed.
use nw_lab.Http.Scan.{Step, refuse, go, stop, broken, stopped, scan}
use nw_lab.Http.State.{ParserState}
use nw_lab.Prelude.{ℕ, zero, suc, ◌+◌, ◌≤◌, ◌≡◌, refl, Bytes, [], ◌∷◌, done, arith}
use nw_lab.Status.{Code}

module _ {M : Type 0} (step : ParserState → ℕ → ℕ → M → Step M) where
  pub scan_more :
      (n k p : ℕ) (rest : Bytes) (st : ParserState) (m : M) {c : Code} {q : ℕ} {m' : M}
      → n ≤ k
      → scan step n p rest st m ≡ done (stopped c q m')
      → scan step k p rest st m ≡ done (stopped c q m')
  unfolding scan
  scan_more zero k p rest st m h e = cc
  scan_more (suc n) zero p rest st m h e = elim h [ ]
  scan_more (suc n) (suc k) p [] st m h e = cc
  scan_more (suc n) (suc k) p (ch ∷ rest) st m {c} {q} {m'} h e =
      go_on (λ st' m1. scan_more n k (p + 1) rest st' m1 (omega arith)) (step st p ch m) refl e
    where
      go_on :
          ((st' : ParserState) (m1 : M)
            → scan step n (p + 1) rest st' m1 ≡ done (stopped c q m')
            → scan step k (p + 1) rest st' m1 ≡ done (stopped c q m'))
          → (s : Step M) → step st p ch m ≡ s
          → scan step (suc n) p (ch ∷ rest) st m ≡ done (stopped c q m')
          → scan step (suc k) p (ch ∷ rest) st m ≡ done (stopped c q m')
      go_on later refuse s e = rw (s, scan) (rw (s, scan) at e)
      go_on later (stop c' m1) s e = rw (s, scan) (rw (s, scan) at e)
      go_on later broken s e = rw (s, scan) (rw (s, scan) at e)
      go_on later (go st' m1) s e = rw (s, scan) (later st' m1 (rw (s, scan) at e))
