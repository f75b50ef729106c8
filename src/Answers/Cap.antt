-- ===== src/Answers/Cap.antt =====
-- The cap on the answers.
use typedb_mcp.Prelude.{
  ℕ, suc, ◌+◌, ◌≤◌, ◌≡◌, inl, inr, refl, String, false, ltb, leb, ap, ◌∙◌, Bool-cases, zero,
  take-append, List, [], ◌∷◌, ◌++◌, arith, map, length, take, length-append,
}
use mathlib.Core.List.{append-nil, append_assoc}
use typedb_mcp.Errors.{DriverError}
use typedb_mcp.Wire.{Reply, ok, err}
use typedb_mcp.Answers.{collect}

take_all : (n : ℕ) (xs : List String) → length xs ≤ n → take n xs ≡ xs
take_all zero [] h = refl
take_all (suc n) [] h = refl
take_all zero (x ∷ xs) h = absurd (omega arith)
take_all (suc n) (x ∷ xs) h = ap (λ t. x ∷ t) (take_all n xs (omega arith))

take_first : (n : ℕ) (xs ys : List String) → length xs ≡ n → take n (xs ++ ys) ≡ xs
take_first n xs ys e = rw (← e) (take-append xs ys)

-- The round that finds the rows complete.
collect_full :
    (cap : ℕ) (rows items : List String) (i : String)
    → length rows ≡ cap
    → collect cap rows (map ok (i ∷ items))
      ≡ ok (take cap (rows ++ i ∷ items), ltb cap (length (rows ++ i ∷ items)))
unfolding collect
collect_full cap rows items i e =
    ground (arith, take_first cap rows (i ∷ items) e, length-append rows (i ∷ items))

-- The round that takes one more row.
collect_room :
    (cap : ℕ) (rows : List String) (stream : List (Reply String)) (i : String)
    → leb cap (length rows) ≡ false
    → collect cap rows (ok i ∷ stream) ≡ collect cap (rows ++ i ∷ []) stream
unfolding collect
collect_room cap rows stream i room = rw room

-- A stream without errors yields its first `max_answers` items, and is called truncated exactly when it
-- has more. `rows` are the items that were taken before, no more than the cap.
pub collect-take :
    (max_answers : ℕ) (rows items : List String)
    → length rows ≤ max_answers
    → collect max_answers rows (map ok items)
      ≡ ok (take max_answers (rows ++ items), ltb max_answers (length (rows ++ items)))
collect-take cap rows [] h =
    unfold collect in rw (append-nil rows) (ground (arith, take_all cap rows h))
collect-take cap rows (i ∷ items) h = elim (Bool-cases (leb cap (length rows))) [
  | inl full ↦ collect_full cap rows items i (ground arith)
  | inr room ↦
      collect_room cap rows (map ok items) i room
      ∙ collect-take cap (rows ++ i ∷ []) items (ground (arith, length-append rows (i ∷ [])))
      ∙ ap (λ (l : List String). ok (take cap l, ltb cap (length l)))
          (append_assoc rows (i ∷ []) items)
]

-- An error of the stream is the answer, if no more than `max_answers` items came before it.
pub collect-err :
    (max_answers : ℕ) (rows items : List String) (e : DriverError) (stream : List (Reply String))
    → length rows + length items ≤ max_answers
    → collect max_answers rows (map ok items ++ err e ∷ stream) ≡ err e
collect-err cap rows [] e stream h = unfold collect in refl
collect-err cap rows (i ∷ items) e stream h =
    collect_room cap rows (map ok items ++ err e ∷ stream) i (ground arith)
    ∙ collect-err cap (rows ++ i ∷ []) items e stream (omega (arith, length-append rows (i ∷ [])))
