-- ===== src/Extensions/Roundtrip.antt =====
-- What the map gives back.
use mathlib.Core.Path.{subst}
use std.HLevel.{hedberg}
use std.Path.{subst_refl}
use typedb_mcp.Prelude.{◌≡◌, ◌≢◌, refl, sym, ap, ◌∙◌, Option, none, some, [], ◌∷◌}
use typedb_mcp.Extensions.{Types, Extensions, found, kept, get, others, insert, remove}

module _ (ts : Types) where
  open ts use {TypeId, Value, id_eq}

  found_same :
      (t : TypeId) (d : Dec (t ≡ t)) (v : Value t) (rest : Option (Value t))
      → found ts d v rest ≡ some v
  found_same t (yes same) v rest =
      ap (λ x. some x)
        (ap (λ p. subst Value p v) (hedberg id_eq t t same refl) ∙ subst_refl Value v)
  found_same t (no differ) v rest = absurd (differ refl)

  found_other :
      (i t : TypeId) (d : Dec (i ≡ t)) (v : Value i) (rest : Option (Value t))
      → i ≢ t
      → found ts d v rest ≡ rest
  found_other i t (yes same) v rest ne = absurd (ne same)
  found_other i t (no differ) v rest ne = refl

  -- An entry of the type itself is found as it is, one of another type is passed over.
  get-here : (t : TypeId) (v : Value t) (m : Extensions ts) → get ts t ((t, v) ∷ m) ≡ some v
  unfolding get
  get-here t v m = found_same t (id_eq t t) v (get ts t m)

  get-there :
      (t u : TypeId) (v : Value u) (m : Extensions ts) → u ≢ t → get ts t ((u, v) ∷ m) ≡ get ts t m
  unfolding get
  get-there t u v m ne = found_other u t (id_eq u t) v (get ts t m) ne

  get-kept :
      (i t u : TypeId) (d : Dec (i ≡ t)) (v : Value i) (m : Extensions ts)
      → u ≢ t
      → get ts u (kept ts d v m) ≡ get ts u ((i, v) ∷ m)
  get-kept i t u (yes same) v m ne = sym (get-there u i v m (λ e. ne (sym e ∙ same)))
  get-kept i t u (no differ) v m ne = refl

  get-same_kept :
      (i t : TypeId) (d : Dec (i ≡ t)) (v : Value i) (m : Extensions ts)
      → get ts t m ≡ none
      → get ts t (kept ts d v m) ≡ none
  get-same_kept i t (yes same) v m h = h
  get-same_kept i t (no differ) v m h = get-there t i v m differ ∙ h

  get-others : (t : TypeId) (m : Extensions ts) → get ts t (others ts t m) ≡ none
  unfolding get others
  get-others t [] = refl
  get-others t ((i, v) ∷ m) = get-same_kept i t (id_eq i t) v (others ts t m) (get-others t m)

  get-other_without :
      (t u : TypeId) (m : Extensions ts) → u ≢ t → get ts u (others ts t m) ≡ get ts u m
  unfolding get others
  get-other_without t u [] ne = refl
  get-other_without t u ((i, v) ∷ m) ne =
      get-kept i t u (id_eq i t) v (others ts t m) ne
      ∙ ap (λ rest. found ts (id_eq i u) v rest) (get-other_without t u m ne)

  -- What is inserted for a type is what removing it gives back; then the type has no value, and every
  -- other type has what it had before both.
  pub remove-insert :
      (t : TypeId) (v : Value t) (m : Extensions ts)
      → let (before, filled) = insert ts t v m in
        let (given, emptied) = remove ts t filled in
        (before ≡ get ts t m)
        × (given ≡ some v)
        × (get ts t emptied ≡ none)
        × ((u : TypeId) → u ≢ t → (get ts u filled ≡ get ts u m) × (get ts u emptied ≡ get ts u m))
  unfolding insert remove
  remove-insert t v m = (
    refl,
    get-here t v (others ts t m),
    get-others t ((t, v) ∷ others ts t m),
    λ u ne.
        let filled =
          get-there u t v (others ts t m) (λ e. ne (sym e)) ∙ get-other_without t u m ne in
        (filled, get-other_without t u ((t, v) ∷ others ts t m) ne ∙ filled),
  )
