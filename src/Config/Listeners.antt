-- ===== src/Config/Listeners.antt =====
-- src/config/xps_config.c: `parse_all_listener`, the list of distinct listeners.
use nw_lab.Config.{Listener, Server}
use nw_lab.Prelude.{
  ℕ, ◌+◌, ◌≡◌, ◌⊎◌, inl, inr, Bool, true, false, ◌&&◌, Bytes, List, [], ◌∷◌, ◌++◌, Option, none,
  some, Mallocs, ◌==◌, if◌then◌else◌, arith, Bool-cases,
}
use nw_lab.Text.{strcmp_eq, strcmp_iff}
use nw_lab.Vec.{vec_push}

unfoldable pub host_match : (existing listener : Option Bytes) → Bool
host_match none none = true
host_match (some a) (some b) = strcmp_eq a b
host_match _ _ = false

-- Whether the address of the listener is in the list already.
unfoldable pub is_duplicate : Listener → List Listener → Bool
is_duplicate l [] = false
is_duplicate l (e ∷ existing) =
    if e.port == l.port && host_match e.host l.host then true else is_duplicate l existing

-- `grown i` answers the push of round `i`.
unfoldable pub add_listeners : (grown : Mallocs) → ℕ → List Listener → List Listener → List Listener
add_listeners grown i [] all = all
add_listeners grown i (l ∷ listeners) all = elim (is_duplicate l all) [
  | true ↦ add_listeners grown (i + 1) listeners all
  | false ↦ add_listeners grown (i + 1) listeners (vec_push (grown i) all l)
]

unfoldable pub parse_all_listener :
    (grown : ℕ → Mallocs) → ℕ → List Server → List Listener → List Listener
parse_all_listener grown i [] all = all
parse_all_listener grown i (s ∷ servers) all =
    parse_all_listener grown (i + 1) servers (add_listeners (grown i) 0 s.listeners all)

-- The addresses in a list, and those of all servers.
abbrev pub IsIn : Listener → List Listener → Type 0
IsIn l [] = ⊥
IsIn l (e ∷ all) = ((e.port ≡ l.port) × (e.host ≡ l.host)) ⊎ IsIn l all

abbrev pub IsServed : Listener → List Server → Type 0
IsServed l [] = ⊥
IsServed l (s ∷ servers) = IsIn l s.listeners ⊎ IsServed l servers

-- No address comes twice.
abbrev pub AllDistinct : List Listener → Type 0
AllDistinct [] = Unit {0}
AllDistinct (l ∷ all) = (¬ IsIn l all) × AllDistinct all

host_match_iff :
    (a b : Option Bytes) → (host_match a b ≡ true → a ≡ b) × (a ≡ b → host_match a b ≡ true)
unfolding host_match
host_match_iff none none = ground arith
host_match_iff none (some b) = ground arith
host_match_iff (some a) none = ground arith
host_match_iff (some a) (some b) = ground (arith, strcmp_iff a b)

is_duplicate_iff :
    (l : Listener) (all : List Listener)
    → (is_duplicate l all ≡ true → IsIn l all) × (IsIn l all → is_duplicate l all ≡ true)
unfolding is_duplicate
is_duplicate_iff l [] = ground arith
is_duplicate_iff l (e ∷ all) = ground (arith, is_duplicate_iff l all, host_match_iff e.host l.host)

IsIn-append :
    (l : Listener) (xs ys : List Listener)
    → (IsIn l (xs ++ ys) → IsIn l xs ⊎ IsIn l ys) × (IsIn l xs ⊎ IsIn l ys → IsIn l (xs ++ ys))
IsIn-append l [] ys = ground arith
IsIn-append l (x ∷ xs) ys = ground (arith, IsIn-append l xs ys)

AllDistinct-append_one :
    (xs : List Listener) (l : Listener)
    → AllDistinct xs
    → ¬ IsIn l xs
    → AllDistinct (xs ++ (l ∷ []))
AllDistinct-append_one [] l d n = ground arith
AllDistinct-append_one (x ∷ xs) l d n =
    ground (arith, AllDistinct-append_one xs l d.1, IsIn-append x xs (l ∷ []))

-- What the list holds after the listeners of a server.
abbrev Added : List Listener → List Listener → List Listener → Type 0
Added listeners all out =
    AllDistinct out
    × ((l : Listener)
        → (IsIn l out → IsIn l listeners ⊎ IsIn l all)
          × (IsIn l listeners ⊎ IsIn l all → IsIn l out))

IsIn-same :
    (l m : Listener) (all : List Listener)
    → m.port ≡ l.port
    → m.host ≡ l.host
    → IsIn m all
    → IsIn l all
IsIn-same l m [] p h i = i
IsIn-same l m (e ∷ all) p h i = ground (arith, IsIn-same l m all p h)

add_listeners-Added :
    (grown : Mallocs) (i : ℕ) (listeners all : List Listener)
    → ((n : ℕ) → grown n ≡ true)
    → AllDistinct all
    → Added listeners all (add_listeners grown i listeners all)
unfolding add_listeners
add_listeners-Added grown i [] all g d = (d, λ l. ground arith)
add_listeners-Added grown i (m ∷ listeners) all g d = elim (Bool-cases (is_duplicate m all)) [
  | inl hit ↦
      let (distinct, same) = add_listeners-Added grown (i + 1) listeners all g d in
      let there = (is_duplicate_iff m all).0 hit in
      rw (hit, add_listeners) (distinct, λ l. ground (arith, same l, IsIn-same l m all, there))
  | inr miss ↦
      let new : ¬ IsIn m all = λ h. ground (arith, (is_duplicate_iff m all).1 h, miss) in
      let (distinct, same) =
        add_listeners-Added grown (i + 1) listeners (all ++ (m ∷ [])) g
          (AllDistinct-append_one all m d new) in
      rw (miss, add_listeners)
        (rw (g i) (distinct, λ l. ground (arith, same l, IsIn-append l all (m ∷ []))))
]

parse_all_listener-from :
    (grown : ℕ → Mallocs) (i : ℕ) (servers : List Server) (all : List Listener)
    → ((n m : ℕ) → grown n m ≡ true)
    → AllDistinct all
    → AllDistinct (parse_all_listener grown i servers all)
      × ((l : Listener)
          → (IsIn l (parse_all_listener grown i servers all) → IsServed l servers ⊎ IsIn l all)
            × (IsServed l servers ⊎ IsIn l all → IsIn l (parse_all_listener grown i servers all)))
unfolding parse_all_listener
parse_all_listener-from grown i [] all g d = (d, λ l. ground arith)
parse_all_listener-from grown i (s ∷ servers) all g d =
    let (distinct, added) = add_listeners-Added (grown i) 0 s.listeners all (g i) d in
    let (last, same) = parse_all_listener-from grown (i + 1) servers _ g distinct in
    (last, λ l. ground (arith, added l, same l))

-- Where the vector can grow, the list of all listeners holds no address twice, and holds exactly
-- the addresses, host and port, of the listeners of the servers.
pub parse_all_listener-AllDistinct :
    (grown : ℕ → Mallocs) (servers : List Server)
    → ((n m : ℕ) → grown n m ≡ true)
    → AllDistinct (parse_all_listener grown 0 servers [])
      × ((l : Listener)
          → (IsIn l (parse_all_listener grown 0 servers []) → IsServed l servers)
            × (IsServed l servers → IsIn l (parse_all_listener grown 0 servers [])))
parse_all_listener-AllDistinct grown servers g =
    let (distinct, same) = parse_all_listener-from grown 0 servers [] g tt in
    (distinct, λ l. ground (arith, same l))
