-- ===== src/HashMap.antt =====
-- `std::collections::HashMap<String, V>` and `HashSet<String>`. A map is the list of its entries; the
-- order in which Rust walks a map is unspecified, here it is the order of the list, and what is
-- stated of a walk does not depend on it.
pub mod Laws
pub mod Keyed
use pacinet.Prelude.{
  String, ◌==◌, Bool, true, false, ◌≡◌, refl, Option, none, some, List, [], ◌∷◌, map, if◌then◌else◌,
}

abbrev pub HashMap {ℓ} : Type ℓ → Type ℓ
HashMap V = List (String × V)

abbrev pub HashSet : Type 0
HashSet = List String

module _ {ℓ} {V : Type ℓ} where
  unfoldable pub get : String → HashMap V → Option V
  get k [] = none
  get k ((j, v) ∷ m) = if j == k then some v else get k m

  unfoldable pub insert : String → V → HashMap V → HashMap V
  insert k v [] = (k, v) ∷ []
  insert k v ((j, w) ∷ m) = if j == k then (j, v) ∷ m else (j, w) ∷ insert k v m

  unfoldable pub remove : String → HashMap V → HashMap V
  remove k [] = []
  remove k ((j, w) ∷ m) = let rest = remove k m in if j == k then rest else (j, w) ∷ rest

  unfoldable pub contains_key : String → HashMap V → Bool
  contains_key k [] = false
  contains_key k ((j, w) ∷ m) = if j == k then true else contains_key k m

  abbrev pub keys : HashMap V → List String
  keys = map (λ e. e.0)

  abbrev pub values : HashMap V → List V
  values = map (λ e. e.1)

  -- `retain(|k, _| p(k))`
  unfoldable pub retain : (String → Bool) → HashMap V → HashMap V
  retain p [] = []
  retain p ((j, w) ∷ m) = let rest = retain p m in if p j then (j, w) ∷ rest else rest

-- `HashSet::insert` tells whether the element is new.
unfoldable pub set_contains : String → HashSet → Bool
set_contains k [] = false
set_contains k (j ∷ s) = if j == k then true else set_contains k s

unfoldable pub set_insert : String → HashSet → HashSet × Bool
unfolding set_contains
set_insert k s = if set_contains k s then (s, false) else (k ∷ s, true)

unfoldable pub set_remove : String → HashSet → HashSet
set_remove k [] = []
set_remove k (j ∷ s) = let rest = set_remove k s in if j == k then rest else j ∷ rest
