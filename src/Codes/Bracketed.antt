-- ===== src/Codes/Bracketed.antt =====
-- `extract_codes` ends on every message, and returns only bracketed codes of it.
use typedb_mcp.Prelude.{
  ℕ, zero, suc, ◌≤◌, ◌<◌, ◌≡◌, inl, inr, refl, true, some, List, [], ◌∷◌, ◌++◌, arith, length, All,
  Option-cases, Bool-cases, length-append, ap, sym, ◌∙◌, eqb, eqb_iff, if◌then◌else◌,
}
use mathlib.Core.List.{append_assoc}
use typedb_mcp.Codes.{split_close, is_code, Scan, codes, scan, extract_codes}

-- `split_close` cuts at the first `]`.
split_close-append :
    (bs code rest : List ℕ) → split_close bs ≡ some (code, rest) → bs ≡ code ++ b']' ∷ rest
unfolding split_close
split_close-append [] code rest h = cc
split_close-append (b ∷ bs) code rest h = elim (Option-cases (split_close bs)) [
  | inl e ↦ ground (arith, e)
  | inr ((c, r), e) ↦ ground (arith, e, split_close-append bs c r e)
]

split_close_shrinks :
    (bs code rest : List ℕ) → split_close bs ≡ some (code, rest) → length rest < length bs
split_close_shrinks bs code rest h =
    omega (arith, ap length (split_close-append bs code rest h), length-append code (b']' ∷ rest))

-- The message holds the code between brackets, and the code is one or more capitals and digits.
abbrev pub Bracketed : List ℕ → List ℕ → Type 0
Bracketed m code =
    ((before : List ℕ) × (after : List ℕ) × (m ≡ before ++ b'[' ∷ (code ++ b']' ∷ after)))
    × (is_code code ≡ true)

All-snoc :
    (m : List ℕ) (out : List (List ℕ)) (code : List ℕ)
    → All (Bracketed m) out
    → Bracketed m code
    → All (Bracketed m) (out ++ code ∷ [])
All-snoc m [] code a b = (b, tt)
All-snoc m (x ∷ out) code a b = (a.0, All-snoc m out code a.1 b)

abbrev pub Sound : List ℕ → Scan → Type 0
Sound m r = (found : List (List ℕ)) × (r ≡ codes found) × All (Bracketed m) found

push_code :
    (m pre bs code rest : List ℕ) (out : List (List ℕ))
    → m ≡ pre ++ b'[' ∷ bs
    → split_close bs ≡ some (code, rest)
    → All (Bracketed m) out
    → All (Bracketed m) (if is_code code then out ++ code ∷ [] else out)
push_code m pre bs code rest out e h a = elim (Bool-cases (is_code code)) [
  | inl good ↦ rw good (
      All-snoc m out code a
        ((pre, rest, e ∙ ap (λ x. pre ++ b'[' ∷ x) (split_close-append bs code rest h)), good))
  | inr bad ↦ rw bad a
]

skip_code :
    {m : List ℕ} (pre bs code rest : List ℕ)
    → m ≡ pre ++ b'[' ∷ bs
    → split_close bs ≡ some (code, rest)
    → m ≡ (pre ++ b'[' ∷ (code ++ b']' ∷ [])) ++ rest
skip_code pre bs code rest e h =
    e ∙ ap (λ x. pre ++ b'[' ∷ x) (split_close-append bs code rest h) ∙ simp append_assoc

scan-Sound :
    (m : List ℕ) (fuel : ℕ) (pre bs : List ℕ) (out : List (List ℕ))
    → m ≡ pre ++ bs
    → length bs ≤ fuel
    → All (Bracketed m) out
    → Sound m (scan fuel bs out)
unfolding scan
scan-Sound m zero pre [] out e n a = (out, refl, a)
scan-Sound m (suc fuel) pre [] out e n a = (out, refl, a)
scan-Sound m zero pre (b ∷ bs) out e n a = absurd (omega arith)
scan-Sound m (suc fuel) pre (b ∷ bs) out e n a =
    let on =
      scan-Sound m fuel (pre ++ b ∷ []) bs out (e ∙ sym (append_assoc pre (b ∷ []) bs))
        (omega arith) a in
    elim (Bool-cases (eqb b b'[')) [
      | inr other ↦ rw other on
      | inl open_bracket ↦ elim (Option-cases (split_close bs)) [
        | inl never ↦ rw (open_bracket, never) on
        | inr ((code, rest), h) ↦
            let at_bracket : m ≡ pre ++ b'[' ∷ bs =
              e ∙ ap (λ x. pre ++ x ∷ bs) ((eqb_iff b b'[').0 open_bracket) in
            rw (open_bracket, h)
              (scan-Sound m fuel (pre ++ b'[' ∷ (code ++ b']' ∷ [])) rest
                (if is_code code then out ++ code ∷ [] else out)
                (skip_code pre bs code rest at_bracket h)
                (omega (arith, split_close_shrinks bs code rest h))
                (push_code m pre bs code rest out at_bracket h a))
      ]
    ]

-- On every message `extract_codes` ends, and each code that it returns stands in the message between
-- brackets and is made of one or more capitals and digits.
pub extract_codes-Sound : (message : List ℕ) → Sound message (extract_codes message)
unfolding extract_codes
extract_codes-Sound message =
    scan-Sound message (length message) [] message [] refl (omega arith) tt
