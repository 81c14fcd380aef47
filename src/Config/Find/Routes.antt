-- ===== src/Config/Find/Routes.antt =====
-- src/config/xps_config.c: the choice of a route.
use nw_lab.Config.{Route}
use nw_lab.Config.Find.{consider, best_route, find_route}
use nw_lab.Prelude.{
  ℕ, suc, ◌≤◌, ◌<◌, ◌≡◌, refl, ap, ◌∙◌, ◌⊎◌, inl, inr, Bytes, List, [], ◌∷◌, ◌++◌, Option, none,
  some, done, ltb, length, arith, Bool-cases, ltb→lt,
}
use nw_lab.Text.{NoNul}
use nw_lab.Utils.{str_starts_with}
use nw_lab.Utils.Prefix.{IsUnder, str_starts_with-IsUnder}

-- Each route has its path.
abbrev pub AllNamed : List Route → Type 0
AllNamed [] = Unit {0}
AllNamed (r ∷ routes) = ((p : Bytes) × (r.req_path ≡ some p)) × AllNamed routes

-- The routes that the path lies under have paths shorter than `n`.
abbrev pub AllShorter : Bytes → ℕ → List Route → Type 0
AllShorter path n [] = Unit {0}
AllShorter path n (r ∷ routes) =
    ((p : Bytes) → r.req_path ≡ some p → IsUnder path p → length p < n) × AllShorter path n routes

AllShorter-le :
    (path : Bytes) (m n : ℕ) (routes : List Route)
    → m ≤ n
    → AllShorter path m routes
    → AllShorter path n routes
AllShorter-le path m n [] h s = tt
AllShorter-le path m n (r ∷ routes) h s = (
  λ p e u. let less : length p < m = s.0 p e u in omega arith,
  AllShorter-le path m n routes h s.1,
)

-- A route that the path lies under: the first one with the longest path, of length `n`.
pub record IsBest (path : Bytes) (routes : List Route) (r : Route) (n : ℕ) : Type 0 where
  pub before : List Route
  pub after : List Route
  pub splits : routes ≡ before ++ (r ∷ after)
  pub req_path : Bytes
  pub named : r.req_path ≡ some req_path
  pub under : IsUnder path req_path
  pub length_of : length req_path ≡ n
  pub first : AllShorter path n before
  pub longest : AllShorter path (suc n) after

-- What the loop ends with, from a best route `b` of length `n`.
abbrev Ends : Bytes → List Route → Option Route → ℕ → Type 0
Ends path routes b n =
    ((best_route (some path) routes (b, n) ≡ done (b, n)) × AllShorter path (suc n) routes)
    ⊎ ((r : Route) × (m : ℕ) × (best_route (some path) routes (b, n) ≡ done (some r, m))
        × (n < m)
        × IsBest path routes r m)

-- What holds of the route's path holds of whatever its path is said to be.
short_at :
    (path : Bytes) (r : Route) (p : Bytes) (m : ℕ)
    → r.req_path ≡ some p
    → (IsUnder path p → length p < m)
    → (q : Bytes) → r.req_path ≡ some q
    → IsUnder path q
    → length q < m
short_at path r p m named short q e u = let same : q ≡ p = cc in rw same (short (rw same at u))

skipped :
    (path : Bytes) (r : Route) (p : Bytes) (routes : List Route) (b : Option Route) (n : ℕ)
    → r.req_path ≡ some p
    → consider r.req_path (some path) r (b, n) ≡ done (b, n)
    → (IsUnder path p → length p < suc n)
    → Ends path routes b n
    → Ends path (r ∷ routes) b n
unfolding best_route
skipped path r p routes b n named step short (inl (run, all)) =
    inl (rw step run, (short_at path r p (suc n) named short, all))
skipped path r p routes b n named step short (inr (r', m, run, more, best)) = inr (
  r',
  m,
  rw step run,
  more,
  record {
    before = r ∷ best.before;
    after = best.after;
    splits = ap (◌∷◌ r) best.splits;
    req_path = best.req_path;
    named = best.named;
    under = best.under;
    length_of = best.length_of;
    first = (
      short_at path r p m named (λ u. let less : length p < suc n = short u in omega arith),
      best.first,
    );
    longest = best.longest;
  },
)

taken :
    (path : Bytes) (r : Route) (p : Bytes) (routes : List Route) (b : Option Route) (n : ℕ)
    → r.req_path ≡ some p
    → consider r.req_path (some path) r (b, n) ≡ done (some r, length p)
    → IsUnder path p
    → n < length p
    → Ends path routes (some r) (length p)
    → Ends path (r ∷ routes) b n
unfolding best_route
taken path r p routes b n named step under more (inl (run, all)) = inr (
  r,
  length p,
  rw step run,
  more,
  record {
    before = [];
    after = routes;
    splits = refl;
    req_path = p;
    named = named;
    under = under;
    length_of = refl;
    first = tt;
    longest = all;
  },
)
taken path r p routes b n named step under more (inr (r', m, run, longer, best)) = inr (
  r',
  m,
  rw step run,
  omega arith,
  record {
    before = r ∷ best.before;
    after = best.after;
    splits = ap (◌∷◌ r) best.splits;
    req_path = best.req_path;
    named = best.named;
    under = best.under;
    length_of = best.length_of;
    first = (short_at path r p m named (λ u. longer), best.first);
    longest = best.longest;
  },
)

best_route-Ends :
    (path : Bytes) (routes : List Route) (b : Option Route) (n : ℕ)
    → NoNul path
    → AllNamed routes
    → Ends path routes b n
unfolding best_route consider
best_route-Ends path [] b n clean all = inl (refl, tt)
best_route-Ends path (r ∷ routes) b n clean ((p, named), all) =
    let test = str_starts_with-IsUnder path p clean in
    elim (Bool-cases (str_starts_with path p)) [
      | inr miss ↦
          skipped path r p routes b n named (step named ∙ rw miss)
            (λ u. absurd (ground (arith, test.1 u, miss)))
            (best_route-Ends path routes b n clean all)
      | inl hit ↦ elim (Bool-cases (ltb n (length p))) [
        | inl more ↦
            taken path r p routes b n named (step named ∙ rw hit (rw more)) (test.0 hit)
              (ltb→lt n (length p) more) (best_route-Ends path routes (some r) (length p) clean all)
        | inr less ↦
            skipped path r p routes b n named (step named ∙ rw hit (rw less)) (λ u. ground arith)
              (best_route-Ends path routes b n clean all)
      ]
    ]
  where
    step :
        {o : Option Bytes}
        → r.req_path ≡ o
        → consider r.req_path (some path) r (b, n) ≡ consider o (some path) r (b, n)
    step e = ap (λ x. consider x (some path) r (b, n)) e

-- For a path without NUL, where every route has its path, the route that is found is the first one
-- with the longest path, not empty, that the request's path lies under; none is found only if the
-- request's path lies under no route's path but empty ones.
pub find_route-IsBest :
    (path : Bytes) (routes : List Route)
    → NoNul path
    → AllNamed routes
    → ((find_route (some path) routes ≡ done none) × AllShorter path 1 routes)
      ⊎ ((r : Route) × (n : ℕ) × (find_route (some path) routes ≡ done (some r))
          × (0 < n)
          × IsBest path routes r n)
unfolding find_route
find_route-IsBest path routes clean all = elim (best_route-Ends path routes none 0 clean all) [
  | inl (run, short) ↦ inl (rw run, short)
  | inr (r, n, run, more, best) ↦ inr (r, n, rw run, more, best)
]
