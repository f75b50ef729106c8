-- ===== src/Examples/Disk/Laws.antt =====
-- The file system in memory is one that the jobs can rely on.
use typedb_mcp.Prelude.{
  ℕ, ◌≡◌, ◌≢◌, refl, sym, ap, ◌∙◌, inl, inr, String, Bool, true, false, Option, none, some, List,
  [], arith, length, Bool-cases,
}
use typedb_mcp.Migration.Paths.{PathBuf, same_path}
use typedb_mcp.Migration.Paths.Names.{same_path_refl, same_path-eq}
use typedb_mcp.Migration.Disk.{
  Node, file, directory, link, other, Metadata, Result, returned, raised,
}
use typedb_mcp.Migration.Disk.Laws.{Lawful}
use typedb_mcp.Examples.Disk.{
  Files, put, MemoryWorld, create_at, remove_at, copy_of, content, data_of, canonical_of,
  exported_schema, exported_data, export_at, memory,
}

put-same : (p : PathBuf) (n : Option Node) (f : Files) → put p n f p ≡ n
put-same p n f = rw (same_path_refl p) refl

put-other : (q p : PathBuf) (n : Option Node) (f : Files) → q ≢ p → put p n f q ≡ f q
put-other q p n f ne = elim (Bool-cases (same_path q p)) [
  | inl same ↦ absurd (ne (same_path-eq q p same))
  | inr differ ↦ rw differ refl
]

differs : (f : Files) (q p : PathBuf) (n : Node) → f q ≡ some n → f p ≡ none → q ≢ p
differs f q p n h g e = ground arith

create_at-keeps :
    (o : Option Node) (q : PathBuf) (n : Node) (p : PathBuf) (w : MemoryWorld)
    → w.0 p ≡ o
    → w.0 q ≡ some n
    → (create_at o p w).1.0 q ≡ some n
create_at-keeps none q n p (f, v) nothing there =
    put-other q p _ f (differs f q p n there nothing) ∙ there
create_at-keeps (some m) q n p (f, v) something there = there

create_at-fresh :
    (o : Option Node) (p : PathBuf) (w : MemoryWorld)
    → w.0 p ≡ o
    → (create_at o p w).0 ≡ returned tt
    → (w.0 p ≡ none) × ((create_at o p w).1.0 p ≡ some (file []))
create_at-fresh none p (f, v) nothing h = (nothing, put-same p _ f)
create_at-fresh (some m) p (f, v) something h = cc

remove_at-others :
    (o : Option Node) (q p : PathBuf) (w : MemoryWorld) → q ≢ p → (remove_at o p w).1.0 q ≡ w.0 q
remove_at-others none q p (f, v) ne = refl
remove_at-others (some m) q p (f, v) ne = put-other q p none f ne

remove_at-gone :
    (o : Option Node) (p : PathBuf) (w : MemoryWorld)
    → (remove_at o p w).0 ≡ returned tt
    → (remove_at o p w).1.0 p ≡ none
remove_at-gone none p (f, v) h = cc
remove_at-gone (some m) p (f, v) h = put-same p none f

copy_of-others :
    (o : Option Node) (q p : PathBuf) (w : MemoryWorld) → q ≢ p → (copy_of o p w).1.0 q ≡ w.0 q
copy_of-others none q p (f, v) ne = refl
copy_of-others (some (file b)) q p (f, v) ne = put-other q p _ f ne
copy_of-others (some directory) q p (f, v) ne = refl
copy_of-others (some link) q p (f, v) ne = refl
copy_of-others (some other) q p (f, v) ne = refl

copy_of-file :
    (o : Option Node) (p : PathBuf) (w : MemoryWorld) (b : List ℕ)
    → o ≡ some (file b)
    → (copy_of o p w).1.0 p ≡ some (file b)
copy_of-file o p (f, v) b e = rw e (put-same p _ f)

content-file : (o : Option Node) (b c : List ℕ) → o ≡ some (file b) → content o ≡ returned c → c ≡ b
content-file (some (file d)) b c e h = cc
content-file (some directory) b c e h = cc
content-file (some link) b c e h = cc
content-file (some other) b c e h = cc
content-file none b c e h = cc

copy_of-content :
    (o : Option Node) (p : PathBuf) (w : MemoryWorld)
    → (copy_of o p w).0 ≡ returned tt
    → (b : List ℕ) × (content o ≡ returned b) × ((copy_of o p w).1.0 p ≡ some (file b))
copy_of-content (some (file b)) p (f, v) done = (b, refl, put-same p _ f)
copy_of-content (some directory) p w done = cc
copy_of-content (some link) p w done = cc
copy_of-content (some other) p w done = cc
copy_of-content none p w done = cc

content-same :
    (o p : Option Node) (b c : List ℕ)
    → ((n : Node) → o ≡ some n → p ≡ some n)
    → content o ≡ returned b
    → content p ≡ returned c
    → c ≡ b
content-same none p b c k h g = cc
content-same (some (file d)) p b c k h g =
    content-file p d c (k (file d) refl) g ∙ sym (content-file (some (file d)) d b refl h)
content-same (some directory) p b c k h g = cc
content-same (some link) p b c k h g = cc
content-same (some other) p b c k h g = cc

canonical-eq : (o : Option Node) (p q : PathBuf) → canonical_of o p ≡ returned q → p ≡ q
canonical-eq none p q h = cc
canonical-eq (some n) p q h = cc

abbrev len_from : Result String Metadata → ℕ
len_from (returned m) = m.len
len_from (raised e) = 0

data_of-file :
    (o : Option Node) (b : List ℕ) (m : Metadata)
    → o ≡ some (file b)
    → data_of o ≡ returned m
    → m.len ≡ length b
data_of-file o b m e h = sym (ap len_from h) ∙ ap (λ o. len_from (data_of o)) e

false-ne-true : false ≢ true
false-ne-true h = cc

export_at-others :
    (c : Bool) (q a b : PathBuf) (w : MemoryWorld)
    → q ≢ a
    → q ≢ b
    → (export_at c a b w).1.0 q ≡ w.0 q
export_at-others false q a b (f, v) na nb =
    put-other q b (some (file exported_data)) (put a (some (file exported_schema)) f) nb
    ∙ put-other q a (some (file exported_schema)) f na
export_at-others true q a b (f, v) na nb = refl

export_at-files :
    (same : Bool) (a b : PathBuf) (w : MemoryWorld)
    → same_path b a ≡ same
    → (export_at same a b w).0 ≡ returned tt
    → (b ≢ a)
      × ((c : List ℕ) × ((export_at same a b w).1.0 a ≡ some (file c)))
      × ((d : List ℕ) × ((export_at same a b w).1.0 b ≡ some (file d)))
export_at-files true a b (f, v) e h = cc
export_at-files false a b (f, v) e h = (
  two,
  (
    exported_schema,
    put-other a b (some (file exported_data)) first (λ same. two (sym same))
        ∙ put-same a (some (file exported_schema)) f,
  ),
  (exported_data, put-same b (some (file exported_data)) first),
)
  where
    first : Files
    first = put a (some (file exported_schema)) f

    two : b ≢ a
    two same = false-ne-true (sym e ∙ ap (same_path b) (sym same) ∙ same_path_refl b)

create_at-server : (o : Option Node) (p : PathBuf) (w : MemoryWorld) → (create_at o p w).1.1 ≡ w.1
create_at-server none p (f, v) = refl
create_at-server (some n) p (f, v) = refl

remove_at-server : (o : Option Node) (p : PathBuf) (w : MemoryWorld) → (remove_at o p w).1.1 ≡ w.1
remove_at-server none p (f, v) = refl
remove_at-server (some n) p (f, v) = refl

copy_of-server : (o : Option Node) (p : PathBuf) (w : MemoryWorld) → (copy_of o p w).1.1 ≡ w.1
copy_of-server none p (f, v) = refl
copy_of-server (some (file b)) p (f, v) = refl
copy_of-server (some directory) p (f, v) = refl
copy_of-server (some link) p (f, v) = refl
copy_of-server (some other) p (f, v) = refl

pub memory-Lawful : Lawful memory
memory-Lawful = record {
  place_name = λ p. refl;
  create_new_keeps = λ q n p w. create_at-keeps (w.0 p) q n p w refl;
  create_new_fresh = λ p w. create_at-fresh (w.0 p) p w refl;
  create_dir_all_keeps = λ q n p w h. h;
  remove_file_others = λ q p w. remove_at-others (w.0 p) q p w;
  remove_file_gone = λ p w. remove_at-gone (w.0 p) p w;
  copy_others = λ q from to w nothing. copy_of-others (w.0 from) q to w;
  copy_file = λ from to w nothing done. copy_of-content (w.0 from) to w done;
  pump_others = λ q from to w. copy_of-others (w.0 from) q to w;
  pump_file = λ from to w b there empty done. copy_of-file (w.0 from) to w b there;
  read_file = λ p w b c. content-file (w.0 p) b c;
  read_same = λ p w v b c kept. content-same (w.0 p) (v.0 p) b c (λ n. kept p n);
  canonicalize_file = λ p q w b there is. ap w.0 (sym (canonical-eq (w.0 p) p q is)) ∙ there;
  metadata_file = λ p w b m. data_of-file (w.0 p) b m;
  export_database_others = λ q name a b w. export_at-others (same_path b a) q a b w;
  export_database_files = λ name a b w. export_at-files (same_path b a) a b w refl;
  import_database_others = λ q name a b w. refl;
  create_new_server = λ p w. create_at-server (w.0 p) p w;
  remove_file_server = λ p w. remove_at-server (w.0 p) p w;
  copy_server = λ from to w. copy_of-server (w.0 from) to w;
}
