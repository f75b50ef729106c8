-- ===== src/Codes.antt =====
-- `extract_codes` of crates/typedb-mcp-core/src/envelope.rs, over the bytes of the message. The index of
-- the source's loop is the list of the bytes that it has not reached; each round drops one byte at
-- least, so as many rounds as there are bytes are enough.
pub mod Bracketed
use typedb_mcp.Prelude.{
  ℕ, zero, suc, Bool, true, false, not, ◌&&◌, ◌||◌, Option, none, some, List, [], ◌∷◌, ◌++◌, eqb,
  if◌then◌else◌, length, every, is_ascii_digit, is_ascii_uppercase,
}
use typedb_mcp.Names.{is_empty}

-- `find(']')`: the bytes before the first `]`, and those after it.
unfoldable pub split_close : List ℕ → Option (List ℕ × List ℕ)
split_close [] = none
split_close (b ∷ bs) =
    if eqb b b']'
    then some ([], bs)
    else elim (split_close bs) [ none ↦ none | some (code, rest) ↦ some (b ∷ code, rest) ]

abbrev pub is_code : List ℕ → Bool
is_code code = not (is_empty code) && every (λ c. is_ascii_uppercase c || is_ascii_digit c) code

-- The answer of a loop on fuel; `stuck` means that the fuel ran out.
pub data Scan : Type 0 where
  codes : List (List ℕ) → Scan
  stuck : Scan

unfoldable pub scan : ℕ → List ℕ → List (List ℕ) → Scan
scan fuel [] out = codes out
scan zero (b ∷ bs) out = stuck
scan (suc fuel) (b ∷ bs) out =
    let step = scan fuel bs out in
    if eqb b b'['
    then elim (split_close bs) [
      | none ↦ step
      | some (code, rest) ↦ scan fuel rest (if is_code code then out ++ code ∷ [] else out)
    ]
    else step

unfoldable pub extract_codes : List ℕ → Scan
extract_codes message = scan (length message) message []
