-- ===== src/Prelude/Digits.antt =====
-- Numbers in decimal.
use Prim.Native.Nat.{ℕ, zero, suc, ◌+◌, ◌/◌, ◌%◌}
use mathlib.Core.Path.{◌≡◌}
use mathlib.Core.Bool.{Bool, true, ◌&&◌}
use mathlib.Core.List.{List, [], ◌∷◌, ◌++◌}
use native.Mathlib.Omega.{arith}
use typedb_mcp.Prelude.Tests.{ltb, if◌then◌else◌}
use typedb_mcp.Prelude.Lists.{every}
use typedb_mcp.Prelude.Texts.{is_ascii_digit}

-- `n` rounds are enough for `n`.
unfoldable pub digits : ℕ → ℕ → List ℕ
digits zero n = (b'0' + n % 10) ∷ []
digits (suc fuel) n =
    let front = digits fuel (n / 10) in
    if ltb n 10 then (b'0' + n) ∷ [] else front ++ (b'0' + n % 10) ∷ []

abbrev pub decimal : ℕ → List ℕ
decimal n = digits n n

every-append :
    {A : Type 0} (p : A → Bool) (xs ys : List A) → every p (xs ++ ys) ≡ (every p xs && every p ys)
every-append p [] ys = ground arith
every-append p (x ∷ xs) ys = ground (arith, every-append p xs ys)

pub every-digits : (fuel n : ℕ) → every is_ascii_digit (digits fuel n) ≡ true
unfolding digits
every-digits zero n = ground arith
every-digits (suc fuel) n = ground (
  arith,
  every-digits fuel (n / 10),
  every-append is_ascii_digit (digits fuel (n / 10)) ((b'0' + n % 10) ∷ []),
)
