-- ===== src/Connection/Versions.antt =====
-- Which versions of the server are accepted.
use typedb_mcp.Prelude.{
  ℕ, zero, suc, ◌+◌, ◌*◌, ◌-◌, ◌/◌, ◌%◌, ◌^◌, ◌≤◌, ◌<◌, ◌≡◌, ◌⊎◌, refl, ap, ◌∙◌, Bool, true, false,
  ◌||◌, some, List, [], ◌∷◌, ◌++◌, arith, eqb, every, length, length-append, is_ascii_digit, digits,
  decimal, every-digits,
}
use typedb_mcp.Connection.{
  piece, after, is_suffix_mark, is_dot, is_minus, has_byte, parse_from, parse_u64, parse_piece,
  policy, validate_server_version, VersionCheck, accepted, rejected, unsupported, verified,
  unverified,
}

-- Bytes that `p` does not find among digits.
abbrev Plain : (ℕ → Bool) → Type 0
Plain p = (b : ℕ) → is_ascii_digit b ≡ true → p b ≡ false

module _ (p : ℕ → Bool) (plain : Plain p) where
  piece-digits :
      (xs ys : List ℕ) → every is_ascii_digit xs ≡ true → piece p (xs ++ ys) ≡ xs ++ piece p ys
  unfolding piece
  piece-digits [] ys h = refl
  piece-digits (x ∷ xs) ys h = ground (arith, piece-digits xs ys, plain x)

  after-digits : (xs ys : List ℕ) → every is_ascii_digit xs ≡ true → after p (xs ++ ys) ≡ after p ys
  unfolding after
  after-digits [] ys h = refl
  after-digits (x ∷ xs) ys h = ground (arith, after-digits xs ys, plain x)

  has_byte-digits :
      (xs ys : List ℕ) → every is_ascii_digit xs ≡ true → has_byte p (xs ++ ys) ≡ has_byte p ys
  unfolding has_byte
  has_byte-digits [] ys h = refl
  has_byte-digits (x ∷ xs) ys h = ground (arith, has_byte-digits xs ys, plain x)

is_dot-Plain : Plain is_dot
is_dot-Plain b h = ground arith

is_suffix_mark-Plain : Plain is_suffix_mark
is_suffix_mark-Plain b h = ground arith

is_minus-Plain : Plain is_minus
is_minus-Plain b h = ground arith

parse_from-append :
    (acc a : ℕ) (xs ys : List ℕ)
    → parse_from acc xs ≡ some a
    → parse_from acc (xs ++ ys) ≡ parse_from a ys
unfolding parse_from
parse_from-append acc a [] ys h = ground arith
parse_from-append acc a (x ∷ xs) ys h =
    ground (arith, parse_from-append (acc * 10 + (x - b'0')) a xs ys)

parse_from-digits : (fuel n : ℕ) → n ≤ fuel → n < 2 ^ 64 → parse_from 0 (digits fuel n) ≡ some n
unfolding parse_from digits
parse_from-digits zero n h g = ground arith
parse_from-digits (suc fuel) n h g = ground (
  arith,
  parse_from-digits fuel (n / 10),
  parse_from-append 0 (n / 10) (digits fuel (n / 10)) ((b'0' + n % 10) ∷ []),
)

length-digits : (fuel n : ℕ) → 1 ≤ length (digits fuel n)
unfolding digits
length-digits zero n = omega arith
length-digits (suc fuel) n =
    ground (arith, length-append (digits fuel (n / 10)) ((b'0' + n % 10) ∷ []))

parse_u64-digits :
    (xs : List ℕ) → every is_ascii_digit xs ≡ true → 1 ≤ length xs → parse_u64 xs ≡ parse_from 0 xs
unfolding parse_u64
parse_u64-digits [] h g = ground arith
parse_u64-digits (x ∷ xs) h g = ground arith

parse_u64-decimal : (n : ℕ) → n < 2 ^ 64 → parse_u64 (decimal n) ≡ some n
parse_u64-decimal n h =
    parse_u64-digits (decimal n) (every-digits n n) (length-digits n n)
    ∙ parse_from-digits n n (omega arith) h

-- What may follow the second number: nothing, a patch number or build metadata.
abbrev pub stops : List ℕ → Bool
stops [] = true
stops (b ∷ bs) = is_dot b || eqb b b'+'

stops-piece : (tail : List ℕ) → stops tail ≡ true → piece is_dot (piece is_suffix_mark tail) ≡ []
unfolding piece
stops-piece [] h = refl
stops-piece (b ∷ bs) h = ground arith

append_nil : (xs : List ℕ) → xs ++ [] ≡ xs
append_nil [] = refl
append_nil (x ∷ xs) = rw (append_nil xs)

piece-dot : (r : List ℕ) → piece is_suffix_mark (b'.' ∷ r) ≡ b'.' ∷ piece is_suffix_mark r
unfolding piece
piece-dot r = refl

piece-ends : (r : List ℕ) → piece is_dot (b'.' ∷ r) ≡ []
unfolding piece
piece-ends r = refl

after-dot : (r : List ℕ) → after is_dot (b'.' ∷ r) ≡ some r
unfolding after
after-dot r = refl

has_byte-dot : (r : List ℕ) → has_byte is_minus (b'.' ∷ r) ≡ has_byte is_minus r
unfolding has_byte
has_byte-dot r = refl

module _ (major minor : ℕ) (tail : List ℕ) where
  abbrev version : List ℕ
  version = decimal major ++ b'.' ∷ (decimal minor ++ tail)

  abbrev core : List ℕ
  core = decimal major ++ b'.' ∷ (decimal minor ++ piece is_suffix_mark tail)

  piece-version : piece is_suffix_mark version ≡ core
  piece-version =
      piece-digits is_suffix_mark is_suffix_mark-Plain (decimal major) _ (every-digits major major)
      ∙ ap (λ r. decimal major ++ r)
          (piece-dot (decimal minor ++ tail)
            ∙ ap (λ r. b'.' ∷ r)
                (piece-digits is_suffix_mark is_suffix_mark-Plain (decimal minor) tail
                  (every-digits minor minor)))

  major_of : major < 2 ^ 64 → parse_piece (some core) ≡ some major
  major_of h =
      ap parse_u64 (
        piece-digits is_dot is_dot-Plain (decimal major) _ (every-digits major major)
        ∙ ap (λ r. decimal major ++ r) (piece-ends (decimal minor ++ piece is_suffix_mark tail))
        ∙ append_nil (decimal major))
      ∙ parse_u64-decimal major h

  minor_of : minor < 2 ^ 64 → stops tail ≡ true → parse_piece (after is_dot core) ≡ some minor
  minor_of h g =
      ap parse_piece (
        after-digits is_dot is_dot-Plain (decimal major) _ (every-digits major major)
        ∙ after-dot (decimal minor ++ piece is_suffix_mark tail))
      ∙ ap parse_u64 (
          piece-digits is_dot is_dot-Plain (decimal minor) _ (every-digits minor minor)
          ∙ ap (λ r. decimal minor ++ r) (stops-piece tail g)
          ∙ append_nil (decimal minor))
      ∙ parse_u64-decimal minor h

  minus_of : has_byte is_minus version ≡ has_byte is_minus tail
  minus_of =
      has_byte-digits is_minus is_minus-Plain (decimal major) _ (every-digits major major)
      ∙ has_byte-dot (decimal minor ++ tail)
      ∙ has_byte-digits is_minus is_minus-Plain (decimal minor) tail (every-digits minor minor)

-- The check of a version by its two first numbers.
abbrev pub IsJudged : ℕ → ℕ → VersionCheck → Type 0
IsJudged major minor check =
    (((major < 3) ⊎ ((major ≡ 3) × (minor < 12))) × (check ≡ rejected unsupported))
    ⊎ (((major ≡ 3) × (minor ≡ 12)) × (check ≡ accepted verified))
    ⊎ (((3 < major) ⊎ ((major ≡ 3) × (12 < minor))) × (check ≡ accepted unverified))

policy-IsJudged : (major minor : ℕ) → IsJudged major minor (policy major minor)
policy-IsJudged major minor = ground arith

-- A version that is written as two numbers below 2^64 with a dot between them, and after them nothing,
-- a further dot or a plus with any text without a minus, is judged by the two numbers alone: it is unsupported if
-- the major number is below 3, or is 3 and the minor one below 12; verified if they are 3 and 12; and otherwise
-- accepted as unverified.
pub validate_server_version-policy :
    (major minor : ℕ) (tail : List ℕ)
    → major < 2 ^ 64
    → minor < 2 ^ 64
    → stops tail ≡ true
    → has_byte is_minus tail ≡ false
    → IsJudged major minor
        (validate_server_version (decimal major ++ b'.' ∷ (decimal minor ++ tail)))
unfolding validate_server_version
validate_server_version-policy major minor tail h g stop plain = rw (minus_of major minor tail) (
    rw plain (
      rw (piece-version major minor tail) (
        rw (major_of major minor tail h)
          (rw (minor_of major minor tail g stop) (policy-IsJudged major minor)))))
