-- ===== src/Config/Parse/Unmade.antt =====
-- src/config/xps_config.c: the address lists of a route, which are pushed to but never made.
use nw_lab.Config.Parse.{
  Json, Filling, RouteAnswers, push_items, copy_string, strings_of, push_addresses, addresses_of,
  parse_route,
}
use nw_lab.Config.Parse.Described.{AllAt, Holds, HasNone, IsString, addresses_of-HasNone}
use nw_lab.Prelude.{
  ℕ, suc, ◌+◌, ◌≡◌, refl, ◌∙◌, ◌⊎◌, inl, inr, Bool, true, false, Bytes, List, [], ◌∷◌, Option, none,
  some, Exec, done, fault, Mallocs, >>=-done, >>=-fault, codes, length, Option-cases,
}
use nw_lab.Utils.{str_create}
use nw_lab.Vec.{vec_push}

-- The loop over an array returns where its items do.
push_items-returns {ℓ κ κ'} :
    {A : Type ℓ} {B : Type κ'} (P : ℕ → A → Type κ) (grown : Mallocs) (item : ℕ → Exec B) (i : ℕ)
    (xs : List A) (v : List B)
    → ((n : ℕ) (x : A) → P n x → (y : B) × (item n ≡ done y))
    → AllAt P i xs
    → (out : List B) × (push_items grown item (length xs) i v ≡ done out)
unfolding push_items
push_items-returns P grown item i [] v reads h = (v, refl)
push_items-returns P grown item i (x ∷ xs) v reads (e, h) =
    let (y, run) = reads i x e in
    let (out, rest) = push_items-returns P grown item (i + 1) xs (vec_push (grown i) v y) reads h in
    (out, >>=-done _ run ∙ rest)

str_create-returns :
    (given : Bool) (o : Option Bytes) (s : Bytes)
    → o ≡ some s
    → (c : Option Bytes) × (str_create given o ≡ done c)
unfolding str_create
str_create-returns true o s e = (some s, rw e)
str_create-returns false o s e = (none, rw e)

module _ (json : Json) where
  copy_string-returns :
      (given : Bool) (o : json.Object) (name : Bytes)
      → (c : Option Bytes) × (copy_string json given o name ≡ done c)
  unfolding copy_string
  copy_string-returns given o name = elim (Option-cases (json.get_string o name)) [
    | inl e ↦ (none, rw (e, copy_string))
    | inr (s, e) ↦
        let (c, run) = str_create-returns given (some s) s refl in (c, rw (e, copy_string) run)
  ]

  strings_of-returns :
      (f : Filling) (a : Option json.Array) (xs : List Bytes)
      → Holds json (IsString json) a xs
      → (out : List (Option Bytes)) × (strings_of json f a ≡ done out)
  unfolding strings_of
  strings_of-returns f none xs h = ([], refl)
  strings_of-returns f (some a) xs (n, h) =
      let (out, run) =
        push_items-returns (IsString json (some a)) f.grown
          (λ i. str_create (f.copied i) (json.string_at (some a) i)) 0 xs []
          (λ i x. str_create-returns (f.copied i) _ x) h in
      (out, rw n run)

  -- A list of addresses that has a first one, which is a string.
  abbrev pub HasFirst : Option json.Array → Type 0
  HasFirst none = ⊥
  HasFirst (some a) =
      (n : ℕ) × (ip : Bytes) × (json.count (some a) ≡ suc n) × (json.string_at (some a) 0 ≡ some ip)

  addresses_of-HasFirst :
      (f : Filling) (a : Option json.Array) → HasFirst a → addresses_of json f a none ≡ fault
  unfolding addresses_of push_addresses
  addresses_of-HasFirst f none h = absurd h
  addresses_of-HasFirst f (some a) (n, ip, counted, first) =
      let (c, run) = str_create-returns (f.copied 0) _ ip first in
      rw (counted, addresses_of) (>>=-done _ run)

  -- Whatever the allocations answer: a route whose index and upstream lists are lists of strings cannot
  -- be read where its list of allowed addresses begins with a string, or that list is empty and its
  -- list of blocked addresses begins with one. The address is pushed to a vector that was never made.
  pub parse_route-HasFirst :
      (g : RouteAnswers) (o : json.Object) (index upstreams : List Bytes)
      → Holds json (IsString json) (json.get_array o (codes "index")) index
      → Holds json (IsString json) (json.get_array o (codes "upstreams")) upstreams
      → HasFirst (json.get_array o (codes "ip_whitelist"))
        ⊎ (HasNone json (json.get_array o (codes "ip_whitelist"))
            × HasFirst (json.get_array o (codes "ip_blacklist")))
      → parse_route json g o ≡ fault
  unfolding parse_route
  parse_route-HasFirst g o index upstreams i u lists =
      >>=-done _ (copy_string-returns g.req_path o (codes "req_path")).1
      ∙ >>=-done _ (copy_string-returns g.type o (codes "type")).1
      ∙ >>=-done _ (copy_string-returns g.dir_path o (codes "dir_path")).1
      ∙ >>=-done _ (copy_string-returns g.redirect_url o (codes "redirect_url")).1
      ∙ >>=-done _ (strings_of-returns g.index _ index i).1
      ∙ >>=-done _ (strings_of-returns g.upstreams _ upstreams u).1
      ∙ elim lists [
        | inl there ↦ >>=-fault _ (addresses_of-HasFirst g.ip_whitelist _ there)
        | inr (without, there) ↦
            >>=-done _ (addresses_of-HasNone json g.ip_whitelist _ without)
            ∙ >>=-fault _ (addresses_of-HasFirst g.ip_blacklist _ there)
      ]
