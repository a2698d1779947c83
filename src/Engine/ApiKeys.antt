-- ===== src/Engine/ApiKeys.antt =====
-- engines/mod.rs: `ApiKeyResolver`, the bearer token of an endpoint.
use mathlib.Core.List.{foldl, zip}
use spark_dashboard.Prelude.{
  String, ◌≡◌, refl, Bool, ◌&&◌, not, Option, none, some, List, [], ◌∷◌, arith, Assoc, lookup,
  insert, lookup-insert, filterb, ◌==◌, string_eq, if◌then◌else◌, or_else,
}

pub record ApiKeyResolver : Type 0 where
  pub per_endpoint : Assoc String String
  pub global : Option String

-- `collect` into a `HashMap`: a later pair replaces an earlier one of the same key.
abbrev pub collect : List (String × String) → Assoc String String
collect = foldl (λ m p. insert p.0 p.1 m) []

abbrev not_empty : String → Bool
not_empty s = not (s == "")

abbrev filter_text : Option String → Option String
filter_text none = none
filter_text (some g) = if not_empty g then some g else none

pub from_pairs : List String → List String → Option String → ApiKeyResolver
from_pairs engine_urls engine_api_keys global = record {
  per_endpoint = collect (filterb (λ p. not_empty p.1) (zip engine_urls engine_api_keys));
  global = filter_text global;
}

pub resolve : ApiKeyResolver → String → Option String
resolve r endpoint = elim (lookup endpoint r.per_endpoint) [ none ↦ r.global | some key ↦ some key ]

-- The last key that is paired with a URL, empty keys left out.
abbrev pub last_key : String → List (String × String) → Option String
last_key url [] = none
last_key url ((u, key) ∷ pairs) =
    let later = last_key url pairs in
    elim later [ some k ↦ some k | none ↦ if not_empty key && u == url then some key else none ]

lookup-collect :
    (url : String) (m : Assoc String String) (pairs : List (String × String))
    → lookup url (foldl (λ acc p. insert p.0 p.1 acc) m (filterb (λ p. not_empty p.1) pairs))
      ≡ or_else (last_key url pairs) (lookup url m)
lookup-collect url m [] = refl
lookup-collect url m ((u, key) ∷ pairs) = ground (
  arith,
  lookup-insert u url key m,
  lookup-collect url (insert u key m) pairs,
  lookup-collect url m pairs,
)

-- The key of an endpoint is the last nonempty one that is paired with it by position, and the
-- global key, if it is not empty, where there is none.
pub resolve-from_pairs :
    (urls keys : List String) (global : Option String) (endpoint : String)
    → resolve (from_pairs urls keys global) endpoint
      ≡ or_else (last_key endpoint (zip urls keys)) (filter_text global)
unfolding resolve from_pairs lookup
resolve-from_pairs urls keys global endpoint =
    ground (arith, lookup-collect endpoint [] (zip urls keys))
