-- ===== src/Consumer/Counting.antt =====
-- What `count_entities` sends.
use Prim.Native.String.{◌++◌ as append}
use text.Mathlib.TextLemmas.{nil-append, cons-append}
use typedb_mcp.Prelude.{
  ℕ, ◌+◌, ◌≡◌, refl, ap, ◌∙◌, String, true, List, [], ◌∷◌, eqb, every, if◌then◌else◌, codes, arith,
}
use typedb_mcp.Consumer.{is_label_char, is_label, count_query}

-- The semicolons of a text: the ends of its TypeQL statements.
abbrev pub semicolons : List ℕ → ℕ
semicolons [] = 0
semicolons (c ∷ cs) = (if eqb c b';' then 1 else 0) + semicolons cs

semicolons-append :
    (s t : String) → semicolons (codes (append s t)) ≡ semicolons (codes s) + semicolons (codes t)
semicolons-append String.[] t = ap (λ u. semicolons (codes u)) (nil-append t) ∙ omega arith
semicolons-append (String.◌∷◌ c s) t =
    ap (λ u. semicolons (codes u)) (cons-append c s t) ∙ omega (arith, semicolons-append s t)

label-semicolons : (cs : List ℕ) → every is_label_char cs ≡ true → semicolons cs ≡ 0
label-semicolons [] h = refl
label-semicolons (c ∷ cs) h = ground (arith, label-semicolons cs)

-- A label cannot end a statement: the query has the two statements of its template.
pub count_query-semicolons :
    (entity_type : String)
    → is_label entity_type ≡ true
    → semicolons (codes (count_query entity_type)) ≡ 2
unfolding count_query
count_query-semicolons l h =
    semicolons-append "match $x isa " _
    ∙ ap (λ n. 0 + n) (semicolons-append l _ ∙ ap (λ n. n + 2) (label-semicolons (codes l) h))
