-- ===== src/Migration/Paths/Names.antt =====
-- Equality of paths is decided, and how staged files are named.
use typedb_mcp.Prelude.{
  same_bytes, same_bytes_refl, same_bytes-eq, ℕ, ◌≡◌, refl, ap, ◌∙◌, true, false, List, [], ◌∷◌,
  ◌++◌, some, starts_with, bytes, arith,
}
use typedb_mcp.Migration.Paths.{
  PathBuf, split_last, file_name, normal_component, join, same_parts, same_path, stage_prefix,
  stage_suffix, stage_name,
}

same_parts_refl : (a : List (List ℕ)) → same_parts a a ≡ true
same_parts_refl [] = refl
same_parts_refl (x ∷ a) = ground (arith, same_bytes_refl x, same_parts_refl a)

pub same_path_refl : (p : PathBuf) → same_path p p ≡ true
unfolding same_path
same_path_refl p = ground (arith, same_parts_refl p.parts)

same_parts-eq : (a b : List (List ℕ)) → same_parts a b ≡ true → a ≡ b
same_parts-eq [] [] h = refl
same_parts-eq [] (y ∷ b) h = cc
same_parts-eq (x ∷ a) [] h = cc
same_parts-eq (x ∷ a) (y ∷ b) h = ground (arith, same_bytes-eq x y, same_parts-eq a b)

pub same_path-eq : (p q : PathBuf) → same_path p q ≡ true → p ≡ q
unfolding same_path
same_path-eq p q h = ground (arith, same_parts-eq p.parts q.parts)

-- The names of staged files.
pub starts_with-append : (p r : List ℕ) → starts_with (p ++ r) p ≡ true
starts_with-append [] r = refl
starts_with-append (a ∷ p) r = ground (arith, starts_with-append p r)

split_last-append :
    (front : List (List ℕ)) (name : List ℕ) → split_last (front ++ name ∷ []) ≡ some (front, name)
unfolding split_last
split_last-append [] name = refl
split_last-append (a ∷ front) name = rw (split_last-append front name) refl

stage_name_plain : (pid nanos id : ℕ) → same_bytes (stage_name pid nanos id) (bytes "..") ≡ false
unfolding stage_name
stage_name_plain pid nanos id = refl

pub file_name-join :
    (front : PathBuf) (pid nanos id : ℕ)
    → file_name (join front (stage_name pid nanos id)) ≡ some (stage_name pid nanos id)
unfolding file_name join
file_name-join front pid nanos id =
    ap normal_component (split_last-append front.parts (stage_name pid nanos id))
    ∙ rw (stage_name_plain pid nanos id) refl

pub stage_name-starts_with :
    (pid nanos id : ℕ) → starts_with (stage_name pid nanos id) stage_prefix ≡ true
unfolding stage_name
stage_name-starts_with pid nanos id = starts_with-append stage_prefix (stage_suffix pid nanos id)
