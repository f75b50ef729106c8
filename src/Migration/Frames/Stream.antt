-- ===== src/Migration/Frames/Stream.antt =====
-- What a stream of frames is, independently of the validator, and that what the validator accepts is one.
use mathlib.Core.Path.{subst}
use native.Mathlib.Numerals.{towards_suc}
use typedb_mcp.Prelude.{
  ℕ, zero, suc, ◌+◌, ◌*◌, ◌%◌, ◌^◌, ◌≤◌, ◌<◌, ◌≡◌, ◌⊎◌, inl, inr, refl, ap, sym, ◌∙◌, List, [], ◌∷◌,
  ◌++◌, arith, length, drop, take, All,
}
use typedb_mcp.Migration.Frames.{
  FrameError, Varint, len, bad, read_varint, ok, frames, validate_frames,
}

abbrev pub IsByte : ℕ → Type 0
IsByte b = b < 256

-- A number in groups of seven bits, the lowest first; every byte but the last has its top bit set.
pub data Header : List ℕ → ℕ → Type 0 where
  last : {b : ℕ} → b < 128 → Header (b ∷ []) b
  more :
      {b v : ℕ} {bs : List ℕ}
      → 128 ≤ b
      → b < 256
      → Header bs v
      → Header (b ∷ bs) (b % 128 + 128 * v)

-- Frames one after another; `P` says which headers are meant.
pub data Stream (P : List ℕ → Type 0) : List ℕ → Type 0 where
  end : Stream P []
  frame :
      (header payload rest : List ℕ) {bytes : List ℕ}
      → Header header (length payload)
      → P header
      → Stream P rest
      → bytes ≡ header ++ (payload ++ rest)
      → Stream P bytes

pub Varint-cases :
    (r : Varint) → ((e : FrameError) × (r ≡ bad e)) ⊎ ((n : ℕ) × (rest : List ℕ) × (r ≡ len n rest))
Varint-cases (bad e) = inl (e, refl)
Varint-cases (len n rest) = inr (n, rest, refl)

pub pow_step : (s : ℕ) → 2 ^ (s + 7) ≡ 128 * 2 ^ s
pow_step s = simp towards_suc (omega arith)

-- What the inner loop has read is a header, and its number is the header's.
pub record Read (bs : List ℕ) (shift acc n : ℕ) (rest : List ℕ) : Type 0 where
  pub header : List ℕ
  pub value : ℕ
  pub is_header : Header header value
  pub split : bs ≡ header ++ rest
  pub total : n ≡ acc + value * 2 ^ shift

-- One round of the inner loop.
abbrev pub Round : ℕ → List ℕ → ℕ → ℕ → Type 0
Round b bs shift acc =
    ((e : FrameError) × (read_varint (b ∷ bs) shift acc ≡ bad e))
    ⊎ ((b < 128) × (read_varint (b ∷ bs) shift acc ≡ len (acc + b % 128 * 2 ^ shift) bs))
    ⊎ ((128 ≤ b)
        × (read_varint (b ∷ bs) shift acc ≡ read_varint bs (shift + 7) (acc + b % 128 * 2 ^ shift)))

pub read_varint-Round : (b : ℕ) (bs : List ℕ) (shift acc : ℕ) → IsByte b → Round b bs shift acc
unfolding read_varint
read_varint-Round b bs shift acc h = ground arith

longer :
    (b : ℕ) (bs : List ℕ) (shift acc n : ℕ) (rest : List ℕ)
    → 128 ≤ b
    → b < 256
    → Read bs (shift + 7) (acc + b % 128 * 2 ^ shift) n rest
    → Read (b ∷ bs) shift acc n rest
longer b bs shift acc n rest h small r = record {
  header = b ∷ r.header;
  value = b % 128 + 128 * r.value;
  is_header = more h small r.is_header;
  split = ap (λ x. b ∷ x) r.split;
  total = omega (arith, r.total, ap (λ (t : ℕ). r.value * t) (pow_step shift));
}

pub read_varint-Read :
    (bs : List ℕ) (shift acc n : ℕ) (rest : List ℕ)
    → All IsByte bs
    → read_varint bs shift acc ≡ len n rest
    → Read bs shift acc n rest
read_varint-Read [] shift acc n rest a h = unfold read_varint in cc
read_varint-Read (b ∷ bs) shift acc n rest a h = elim (read_varint-Round b bs shift acc a.0) [
  | inl (e, q) ↦ cc
  | inr (inl (small, q)) ↦ record {
    header = b ∷ [];
    value = b;
    is_header = last small;
    split = ground (arith, q, h);
    total = ground (arith, q, h);
  }
  | inr (inr (big, q)) ↦
      longer b bs shift acc n rest big a.0
        (read_varint-Read bs (shift + 7) (acc + b % 128 * 2 ^ shift) n rest a.1 (cc))
]

All-drop : (n : ℕ) (bs : List ℕ) → All IsByte bs → All IsByte (drop n bs)
All-drop zero bs a = a
All-drop (suc n) [] a = tt
All-drop (suc n) (b ∷ bs) a = All-drop n bs a.1

All-suffix : (xs ys : List ℕ) → All IsByte (xs ++ ys) → All IsByte ys
All-suffix [] ys a = a
All-suffix (x ∷ xs) ys a = All-suffix xs ys a.1

-- The first `n` bytes are there, and are followed by the rest.
length-take_le : (n : ℕ) (bs : List ℕ) → n ≤ length bs → length (take n bs) ≡ n
length-take_le zero bs h = refl
length-take_le (suc n) [] h = absurd (omega arith)
length-take_le (suc n) (b ∷ bs) h = ap suc (length-take_le n bs (omega arith))

take-append-drop : (n : ℕ) (bs : List ℕ) → take n bs ++ drop n bs ≡ bs
take-append-drop zero bs = refl
take-append-drop (suc n) [] = refl
take-append-drop (suc n) (b ∷ bs) = ap (λ x. b ∷ x) (take-append-drop n bs)

-- Any header will do.
abbrev pub AnyHeader : List ℕ → Type 0
AnyHeader h = Unit {0}

one_frame :
    (bs : List ℕ) (n : ℕ) (rest : List ℕ)
    → Read bs 0 0 n rest
    → n ≤ length rest
    → Stream AnyHeader (drop n rest)
    → Stream AnyHeader bs
one_frame bs n rest r fits s =
    let e : r.value ≡ length (take n rest) = omega (arith, r.total, length-take_le n rest fits) in
    frame r.header (take n rest) (drop n rest) (rw e at r.is_header) tt s
      (r.split ∙ ap (λ x. r.header ++ x) (sym (take-append-drop n rest)))

frames-Stream : (fuel : ℕ) (bs : List ℕ) → All IsByte bs → frames fuel bs ≡ ok → Stream AnyHeader bs
unfolding frames
frames-Stream zero [] a h = end
frames-Stream (suc fuel) [] a h = end
frames-Stream zero (b ∷ bs) a h = cc
frames-Stream (suc fuel) (b ∷ bs) a h = elim (Varint-cases (read_varint (b ∷ bs) 0 0)) [
  | inl (e, q) ↦ ground (arith, q)
  | inr (n, rest, q) ↦
      let r = read_varint-Read (b ∷ bs) 0 0 n rest a q in
      one_frame (b ∷ bs) n rest r (ground (arith, q)) (
        frames-Stream fuel (drop n rest)
          (All-drop n rest (All-suffix r.header rest (subst (All IsByte) r.split a)))
          (ground (arith, q)))
]

-- A file of bytes that the validator accepts is a stream of frames, each with as many bytes of
-- payload as its header says.
pub validate_frames-Stream :
    (bytes : List ℕ) → All IsByte bytes → validate_frames bytes ≡ ok → Stream AnyHeader bytes
unfolding validate_frames
validate_frames-Stream bytes a h = frames-Stream (length bytes) bytes a h
