-- ===== src/HashMap/Keyed.antt =====
-- Maps that hold each value under a key which the value itself names.
use pacinet.Prelude.{String, ◌≡◌, ◌∙◌, some, []}
use pacinet.HashMap.{HashMap, get, insert, remove}
use pacinet.HashMap.Laws.{
  IsFunctional, Entries, insert-IsFunctional, remove-IsFunctional, Entries-insert, Entries-remove,
  Entries-get,
}

-- Each key stands once, and the value under it names it.
pub record IsKeyedBy {V : Type 0} (name : V → String) (m : HashMap V) : Type 0 where
  pub functional : IsFunctional m
  pub keyed : Entries (λ k v. name v ≡ k) m

module _ {V : Type 0} (name : V → String) where
  pub IsKeyedBy-nil : IsKeyedBy name []
  IsKeyedBy-nil = record { functional = tt; keyed = tt }

  pub IsKeyedBy-insert :
      (k : String) (v : V) (m : HashMap V)
      → name v ≡ k
      → IsKeyedBy name m
      → IsKeyedBy name (insert k v m)
  IsKeyedBy-insert k v m e h = record {
    functional = insert-IsFunctional k v m h.functional;
    keyed = Entries-insert (λ j w. name w ≡ j) k v m e h.keyed;
  }

  pub IsKeyedBy-remove :
      (k : String) (m : HashMap V) → IsKeyedBy name m → IsKeyedBy name (remove k m)
  IsKeyedBy-remove k m h = record {
    functional = remove-IsFunctional k m h.functional;
    keyed = Entries-remove (λ j w. name w ≡ j) k m h.keyed;
  }

  -- `get` answers with a value that names the key.
  pub name_of_get :
      (k : String) (v : V) (m : HashMap V) → IsKeyedBy name m → get k m ≡ some v → name v ≡ k
  name_of_get k v m h e = Entries-get (λ j w. name w ≡ j) k m h.keyed e

  -- A value written back under the key that it was read from.
  pub IsKeyedBy-rewrite :
      (k : String) (v w : V) (m : HashMap V)
      → get k m ≡ some v
      → name w ≡ name v
      → IsKeyedBy name m
      → IsKeyedBy name (insert k w m)
  IsKeyedBy-rewrite k v w m e q h = IsKeyedBy-insert k w m (q ∙ name_of_get k v m h e) h
