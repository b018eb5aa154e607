-- ===== src/HashMap/Laws.antt =====
-- The laws of the maps and sets that the components rest on.
use mathlib.Core.Path.{subst}
use mathlib.Core.Option
use pacinet.Prelude.{
  ◌⊎◌, ◌≢◌, String, ◌==◌, eq_iff, eq_refl, ◌≡◌, ◌∙◌, ap, sym, refl, Bool, true, false, not, none,
  some, [], ◌∷◌, arith, is_some, Bool-cases, inl, inr, IsIn, if◌then◌else◌,
}
use pacinet.HashMap.{
  HashMap, HashSet, get, insert, remove, contains_key, retain, set_contains, set_insert, set_remove,
}

module _ {ℓ} {V : Type ℓ} where
  pub get-insert :
      (k j : String) (v : V) (m : HashMap V)
      → get j (insert k v m) ≡ (if k == j then some v else get j m)
  unfolding get insert
  get-insert k j v [] = refl
  get-insert k j v ((i, w) ∷ m) =
      ground (arith, eq_iff k j, eq_iff i k, eq_iff i j, get-insert k j v m)

  -- Where an entry of a map comes from, after an insertion.
  pub get-insert_source :
      (k j : String) (v w : V) (m : HashMap V)
      → get j (insert k v m) ≡ some w
      → ((k ≡ j) × (v ≡ w)) ⊎ ((k ≢ j) × (get j m ≡ some w))
  get-insert_source k j v w m h = ground (arith, eq_iff k j, get-insert k j v m)

  pub get-insert_self : (k : String) (v : V) (m : HashMap V) → get k (insert k v m) ≡ some v
  get-insert_self k v m = simp (get-insert, eq_refl)

  pub get-remove :
      (k j : String) (m : HashMap V) → get j (remove k m) ≡ (if k == j then none else get j m)
  unfolding get remove
  get-remove k j [] = ground arith
  get-remove k j ((i, w) ∷ m) = ground (arith, eq_iff k j, eq_iff i k, eq_iff i j, get-remove k j m)

  pub get-remove_self : (k : String) (m : HashMap V) → get k (remove k m) ≡ none
  get-remove_self k m = simp (get-remove, eq_refl)

  pub get-retain :
      (p : String → Bool) (j : String) (m : HashMap V)
      → get j (retain p m) ≡ (if p j then get j m else none)
  unfolding get retain
  get-retain p j [] = ground arith
  get-retain p j ((i, w) ∷ m) = elim (Bool-cases (i == j)) [
    | inl e ↦ let q : p i ≡ p j = ap p ((eq_iff i j).0 e) in ground (arith, get-retain p j m)
    | inr e ↦ ground (arith, get-retain p j m)
  ]

  pub contains_key-eq-is_some : (k : String) (m : HashMap V) → contains_key k m ≡ is_some (get k m)
  unfolding contains_key get
  contains_key-eq-is_some k [] = refl
  contains_key-eq-is_some k ((j, w) ∷ m) = ground (arith, contains_key-eq-is_some k m)

  -- No key twice, which `insert` and `remove` keep.
  abbrev pub IsFunctional : HashMap V → Type ℓ
  IsFunctional [] = Unit
  IsFunctional ((k, v) ∷ m) = (get k m ≡ none) × IsFunctional m

  pub insert-IsFunctional :
      (k : String) (v : V) (m : HashMap V) → IsFunctional m → IsFunctional (insert k v m)
  unfolding insert
  insert-IsFunctional k v [] h = (unfold get in refl, tt)
  insert-IsFunctional k v ((j, w) ∷ m) h =
      ground (arith, eq_iff j k, eq_iff k j, get-insert k j v m, insert-IsFunctional k v m h.1)

  pub remove-IsFunctional :
      (k : String) (m : HashMap V) → IsFunctional m → IsFunctional (remove k m)
  unfolding remove
  remove-IsFunctional k [] h = tt
  remove-IsFunctional k ((j, w) ∷ m) h =
      ground (arith, eq_iff j k, eq_iff k j, get-remove k j m, remove-IsFunctional k m h.1)

module _ {V : Type 0} where
  -- An entry of the list and an answer of `get` are the same thing.
  pub IsIn-of_get : (k : String) (v : V) (m : HashMap V) → get k m ≡ some v → IsIn (k, v) m
  unfolding get
  IsIn-of_get k v [] h = cc
  IsIn-of_get k v ((j, w) ∷ m) h = elim (Bool-cases (j == k)) [
    | inl e ↦ inl (ground (arith, eq_iff j k))
    | inr e ↦ inr (IsIn-of_get k v m (ground arith))
  ]

  pub get_of_in :
      (k : String) (v : V) (m : HashMap V) → IsFunctional m → IsIn (k, v) m → get k m ≡ some v
  unfolding get
  get_of_in k v [] f h = elim h [ ]
  get_of_in k v ((j, w) ∷ m) f (inl e) = ground (arith, eq_refl j)
  get_of_in k v ((j, w) ∷ m) f (inr h) = ground (arith, get_of_in k v m f.1 h, eq_iff j k)

  -- `values_mut()`: every value rewritten in its place.
  unfoldable pub map_values : (V → V) → HashMap V → HashMap V
  map_values f [] = []
  map_values f ((k, v) ∷ m) = (k, f v) ∷ map_values f m

  pub get-map_values :
      (f : V → V) (k : String) (m : HashMap V) → get k (map_values f m) ≡ Option.map f (get k m)
  unfolding get map_values
  get-map_values f k [] = refl
  get-map_values f k ((j, v) ∷ m) = ground (arith, get-map_values f k m)

  pub map_values-IsFunctional :
      (f : V → V) (m : HashMap V) → IsFunctional m → IsFunctional (map_values f m)
  unfolding map_values
  map_values-IsFunctional f [] h = tt
  map_values-IsFunctional f ((j, v) ∷ m) h =
      (get-map_values f j m ∙ ap (Option.map f) h.0, map_values-IsFunctional f m h.1)

  -- A predicate of keys and values that every entry satisfies.
  abbrev pub Entries : (String → V → Type 0) → HashMap V → Type 0
  Entries P [] = Unit
  Entries P ((k, v) ∷ m) = P k v × Entries P m

  pub Entries-insert :
      (P : String → V → Type 0) (k : String) (v : V) (m : HashMap V)
      → P k v
      → Entries P m
      → Entries P (insert k v m)
  unfolding insert
  Entries-insert P k v [] p h = (p, tt)
  Entries-insert P k v ((j, w) ∷ m) p h = elim (Bool-cases (j == k)) [
    | inl e ↦ rw e (subst (λ x. P x v) (sym ((eq_iff j k).0 e)) p, h.1)
    | inr e ↦ rw e (h.0, Entries-insert P k v m p h.1)
  ]

  pub Entries-remove :
      (P : String → V → Type 0) (k : String) (m : HashMap V) → Entries P m → Entries P (remove k m)
  unfolding remove
  Entries-remove P k [] h = tt
  Entries-remove P k ((j, w) ∷ m) h = elim (Bool-cases (j == k)) [
    | inl e ↦ rw e (Entries-remove P k m h.1)
    | inr e ↦ rw e (h.0, Entries-remove P k m h.1)
  ]

  pub Entries-get :
      (P : String → V → Type 0) (k : String) {v : V} (m : HashMap V)
      → Entries P m
      → get k m ≡ some v
      → P k v
  unfolding get
  Entries-get P k [] h e = cc
  Entries-get P k {v} ((j, w) ∷ m) h e = elim (Bool-cases (j == k)) [
    | inl t ↦ subst (λ x. P x v) ((eq_iff j k).0 t) (subst (P j) (ground arith) h.0)
    | inr t ↦ Entries-get P k m h.1 (ground arith)
  ]

pub set_contains-insert :
    (k j : String) (s : HashSet)
    → set_contains j (set_insert k s).0 ≡ (if k == j then true else set_contains j s)
unfolding set_insert set_contains
set_contains-insert k j s = elim (Bool-cases (k == j)) [
  | inl e ↦
      let q : set_contains k s ≡ set_contains j s = ap (λ x. set_contains x s) ((eq_iff k j).0 e) in
      ground arith
  | inr e ↦ ground arith
]

pub set_contains-remove :
    (k j : String) (s : HashSet)
    → set_contains j (set_remove k s) ≡ (if k == j then false else set_contains j s)
unfolding set_contains set_remove
set_contains-remove k j [] = ground arith
set_contains-remove k j (i ∷ s) =
    ground (arith, eq_iff k j, eq_iff i k, eq_iff i j, set_contains-remove k j s)

-- `insert` answers whether the element was absent.
pub set_insert-new : (k : String) (s : HashSet) → (set_insert k s).1 ≡ not (set_contains k s)
unfolding set_insert
set_insert-new k s = ground arith
