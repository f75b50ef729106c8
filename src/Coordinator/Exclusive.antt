-- ===== src/Coordinator/Exclusive.antt =====
-- A reservation excludes a second one on the same name, touches no other name, and is undone by its
-- drop.
use typedb_mcp.Prelude.{
  ◌≡◌, ◌≢◌, String, true, false, not, ◌&&◌, arith, ◌==◌, eq_iff, eq_refl, add, add, has-add,
  has-discard, has, ℕ, ◌+◌, List, [], ◌∷◌, Bool, if◌then◌else◌, refl,
}
use typedb_mcp.Names.{valid_name}
use typedb_mcp.Coordinator.{
  OperationCoordinator, Reserved, reserved, refused, try_reserve, release, is_reserved, new,
}

-- A free and valid name is granted; afterwards it is reserved, and every other name is as it was.
pub try_reserve_grants :
    (c : OperationCoordinator) (name : String)
    → valid_name name ≡ true
    → is_reserved c name ≡ false
    → (c' : OperationCoordinator) × (try_reserve c name ≡ reserved name c')
      × (is_reserved c' name ≡ true)
      × ((j : String) → name ≢ j → is_reserved c' j ≡ is_reserved c j)
unfolding try_reserve is_reserved
try_reserve_grants c name v f = (
  record { names = add name c.names },
  ground arith,
  rw (has-add, eq_refl),
  λ j d. rw has-add (ground (arith, eq_iff name j)),
)

-- Dropping the reservation frees its name and no other.
pub is_reserved-release :
    (c : OperationCoordinator) (name j : String)
    → is_reserved (release c name) j ≡ (not (name == j) && is_reserved c j)
unfolding release is_reserved
is_reserved-release c name j = has-discard name j c.names

-- What the tasks of the process do with the coordinator: ask for a name, or drop a reservation.
pub data Act : Type 0 where
  takes drops : String → Act

-- The coordinator, and the reservations that are alive.
pub record Site : Type 0 where
  pub coordinator : OperationCoordinator
  pub alive : List String

unfoldable pub drop_one : String → List String → List String
drop_one name [] = []
drop_one name (j ∷ l) = if name == j then l else j ∷ drop_one name l

abbrev granted_to : Site → Reserved → Site
granted_to s (reserved name c) = record { coordinator = c; alive = name ∷ s.alive }
granted_to s (refused x) = s

-- Only a reservation that is alive is dropped.
unfoldable pub act : Site → Act → Site
unfolding drop_one release try_reserve
act s (takes name) = granted_to s (try_reserve s.coordinator name)
act s (drops name) =
    if has name s.alive
    then record { coordinator = release s.coordinator name; alive = drop_one name s.alive }
    else s

unfoldable pub acts : Site → List Act → Site
acts s [] = s
acts s (a ∷ rest) = acts (act s a) rest

abbrev pub one_if : Bool → ℕ
one_if true = 1
one_if false = 0

unfoldable pub count : String → List String → ℕ
count j [] = 0
count j (k ∷ l) = one_if (k == j) + count j l

count-drop_one :
    (name : String) (l : List String) (j : String)
    → has name l ≡ true
    → one_if (name == j) + count j (drop_one name l) ≡ count j l
unfolding count drop_one has
count-drop_one name [] j h = ground arith
count-drop_one name (k ∷ l) j h =
    ground (arith, count-drop_one name l j, eq_iff name k, eq_iff k name)

-- Each name has one reservation alive if it is reserved and none otherwise.
abbrev pub IsCounted : Site → Type 0
IsCounted s = (j : String) → count j s.alive ≡ one_if (is_reserved s.coordinator j)

act-IsCounted : (s : Site) (a : Act) → IsCounted s → IsCounted (act s a)
unfolding act count is_reserved release try_reserve
act-IsCounted s (takes name) h =
    λ j. ground (arith, h j, has-add name j s.coordinator.names, eq_iff name j)
act-IsCounted s (drops name) h =
    λ j. ground (arith, h j, has-discard name j s.coordinator.names, count-drop_one name s.alive j)

acts-IsCounted : (s : Site) (l : List Act) → IsCounted s → IsCounted (acts s l)
unfolding acts
acts-IsCounted s [] h = h
acts-IsCounted s (a ∷ rest) h = acts-IsCounted (act s a) rest (act-IsCounted s a h)

-- Whatever the tasks take and drop in whatever order, starting with a new coordinator: of each name one
-- reservation is alive if the coordinator says that the name is reserved, and none otherwise. So two
-- reservations of one name are never alive together.
pub acts_exclusive : (l : List Act) → IsCounted (acts (record { coordinator = new; alive = [] }) l)
acts_exclusive l = acts-IsCounted _ l (unfold count is_reserved new has in λ j. refl)
