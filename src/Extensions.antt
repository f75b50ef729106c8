-- ===== src/Extensions.antt =====
-- crates/typedb-mcp-core/src/extensions.rs: one value per concrete type. The types and their `TypeId`s
-- are the argument `Types`; the hash map is a list of entries, whose order nothing depends on. A boxed
-- value is kept with its type's id, so that `downcast` is a test of ids.
pub mod Roundtrip
use mathlib.Core.Path.{subst}
use typedb_mcp.Prelude.{
  ℕ, ◌≡◌, Bool, true, false, Option, none, some, List, [], ◌∷◌, length, eqb, if◌then◌else◌,
}

pub record Types : Type 1 where
  pub TypeId : Type 0
  pub Value : TypeId → Type 0
  pub id_eq : Discrete TypeId

abbrev pub Extensions : Types → Type 0
Extensions ts = List ((i : ts.TypeId) × ts.Value i)

module _ (ts : Types) where
  open ts use {TypeId, Value, id_eq}

  -- The value of an entry whose id is the type's, or what the others say.
  abbrev pub found : {i t : TypeId} → Dec (i ≡ t) → Value i → Option (Value t) → Option (Value t)
  found (yes same) v rest = some (subst Value same v)
  found (no differ) v rest = rest

  abbrev pub kept : {i t : TypeId} → Dec (i ≡ t) → Value i → Extensions ts → Extensions ts
  kept (yes same) v rest = rest
  kept {i = i} (no differ) v rest = (i, v) ∷ rest

  unfoldable pub get : (t : TypeId) → Extensions ts → Option (Value t)
  get t [] = none
  get t ((i, v) ∷ m) = found (id_eq i t) v (get t m)

  -- The entries of the other types.
  unfoldable pub others : TypeId → Extensions ts → Extensions ts
  others t [] = []
  others t ((i, v) ∷ m) = kept (id_eq i t) v (others t m)

  -- The previous value, and the map afterwards.
  unfoldable pub insert : (t : TypeId) → Value t → Extensions ts → Option (Value t) × Extensions ts
  insert t v m = (get t m, (t, v) ∷ others t m)

  unfoldable pub remove : (t : TypeId) → Extensions ts → Option (Value t) × Extensions ts
  remove t m = (get t m, others t m)

  -- The value that the reference points to, and the map; `f` is called only when there is none.
  unfoldable pub get_or_insert_with :
      (t : TypeId) → (Unit {0} → Value t) → Extensions ts → Value t × Extensions ts
  get_or_insert_with t f m = elim (get t m) [ some v ↦ (v, m) | none ↦ (f tt, (t, f tt) ∷ m) ]

  -- What a caller of `get_mut` does to the value.
  unfoldable pub get_mut : (t : TypeId) → (Value t → Value t) → Extensions ts → Extensions ts
  get_mut t f m = elim (get t m) [ some v ↦ (t, f v) ∷ others t m | none ↦ m ]

  abbrev pub is_some : {A : Type 0} → Option A → Bool
  is_some none = false
  is_some (some a) = true

  unfoldable pub contains : TypeId → Extensions ts → Bool
  contains t m = is_some (get t m)

  abbrev pub len : Extensions ts → ℕ
  len m = length m

  abbrev pub is_empty : Extensions ts → Bool
  is_empty m = eqb (length m) 0
