-- ===== src/Migration/Frames/Accepts.antt =====
-- The validator ends on every file, and accepts every stream of frames whose headers have at most nine
-- bytes, which is enough for any payload below 2^63 bytes.
use mathlib.Core.Path.{subst}
use typedb_mcp.Prelude.{
  ℕ, zero, suc, ◌+◌, ◌*◌, ◌%◌, ◌^◌, ◌≤◌, ◌<◌, ◌≡◌, ◌≢◌, inl, inr, refl, ap, ◌∙◌, List, [], ◌∷◌,
  ◌++◌, arith, length, drop, length-append, length-drop, drop-append,
}
use typedb_mcp.Migration.Frames.{len, read_varint, ok, stuck, frames, validate_frames}
use typedb_mcp.Migration.Frames.Stream.{
  Header, last, more, Stream, end, frame, Varint-cases, pow_step,
}

reads_last :
    (b shift acc : ℕ) (rest : List ℕ)
    → b < 128
    → shift ≤ 56
    → read_varint (b ∷ rest) shift acc ≡ len (acc + b * 2 ^ shift) rest
unfolding read_varint
reads_last b shift acc rest h s = ground arith

reads_more :
    (b shift acc : ℕ) (bs : List ℕ)
    → 128 ≤ b
    → b < 256
    → shift ≤ 56
    → read_varint (b ∷ bs) shift acc ≡ read_varint bs (shift + 7) (acc + b % 128 * 2 ^ shift)
unfolding read_varint
reads_more b shift acc bs h k s = ground arith

regroup :
    (acc b v shift : ℕ)
    → acc + b % 128 * 2 ^ shift + v * 2 ^ (shift + 7) ≡ acc + (b % 128 + 128 * v) * 2 ^ shift
regroup acc b v shift = omega (arith, ap (λ (t : ℕ). v * t) (pow_step shift))

Header-reads :
    {h : List ℕ} {v : ℕ} (shift acc : ℕ) (rest : List ℕ)
    → Header h v
    → shift + 7 * length h ≤ 63
    → read_varint (h ++ rest) shift acc ≡ len (acc + v * 2 ^ shift) rest
Header-reads shift acc rest (last small) fits = reads_last _ shift acc rest small (omega arith)
Header-reads shift acc rest (more {b = b} {v = v} {bs = bs} big byte header) fits =
    reads_more b shift acc (bs ++ rest) big byte (omega arith)
    ∙ Header-reads (shift + 7) (acc + b % 128 * 2 ^ shift) rest header (omega arith)
    ∙ ap (λ n. len n rest) (regroup acc b v shift)

-- A header of at most nine bytes.
abbrev pub ShortHeader : List ℕ → Type 0
ShortHeader h = length h ≤ 9

Header-nonempty : {h : List ℕ} {v : ℕ} → Header h v → (b : ℕ) × (t : List ℕ) × (h ≡ b ∷ t)
Header-nonempty (last {b = b} small) = (b, [], refl)
Header-nonempty (more {b = b} {bs = bs} big byte header) = (b, bs, refl)

-- One round of the outer loop.
frames_round :
    (fuel : ℕ) (b : ℕ) (t : List ℕ) (n : ℕ) (rest : List ℕ)
    → read_varint (b ∷ t) 0 0 ≡ len n rest
    → n ≤ length rest
    → frames (suc fuel) (b ∷ t) ≡ frames fuel (drop n rest)
unfolding frames
frames_round fuel b t n rest e fits = ground (arith, e)

frame_accepted :
    (fuel : ℕ) (header payload rest : List ℕ) {bytes : List ℕ}
    → Header header (length payload)
    → ShortHeader header
    → bytes ≡ header ++ (payload ++ rest)
    → frames (suc fuel) bytes ≡ frames fuel rest
frame_accepted fuel header payload rest {bytes} h short e =
    let (b, t, he) = Header-nonempty h in
    let tail : List ℕ = t ++ (payload ++ rest) in
    let q : bytes ≡ b ∷ tail = e ∙ ap (λ x. x ++ (payload ++ rest)) he in
    let reads : read_varint (b ∷ tail) 0 0 ≡ len (length payload) (payload ++ rest) =
      subst (λ x. read_varint (x ++ (payload ++ rest)) 0 0 ≡ len (length payload) (payload ++ rest))
        he
        (Header-reads 0 0 (payload ++ rest) h (omega arith)
          ∙ ap (λ n. len n (payload ++ rest)) (omega arith)) in
    rw q (
      frames_round fuel b tail (length payload) (payload ++ rest) reads
        (omega (arith, length-append payload rest))
      ∙ ap (frames fuel) (drop-append payload rest))

room :
    {header : List ℕ} (fuel : ℕ) (payload rest bytes : List ℕ)
    → Header header (length payload)
    → bytes ≡ header ++ (payload ++ rest)
    → length bytes ≤ fuel
    → length rest < fuel
room {header} fuel payload rest bytes h e fits =
    let (b, t, he) = Header-nonempty h in
    omega (
      arith,
      ap length e,
      ap length he,
      length-append header (payload ++ rest),
      length-append payload rest,
    )

frames-ok :
    (fuel : ℕ) (bytes : List ℕ)
    → Stream ShortHeader bytes
    → length bytes ≤ fuel
    → frames fuel bytes ≡ ok
unfolding frames
frames-ok zero bytes end h = refl
frames-ok (suc fuel) bytes end h = refl
frames-ok zero bytes (frame header payload rest head short s e) h =
    absurd (omega (arith, room zero payload rest bytes head e h))
frames-ok (suc fuel) bytes (frame header payload rest head short s e) h =
    frame_accepted fuel header payload rest head short e
    ∙ frames-ok fuel rest s (omega (arith, room (suc fuel) payload rest bytes head e h))

-- A file that is a stream of frames with headers of at most nine bytes is accepted.
pub validate_frames-ok : (bytes : List ℕ) → Stream ShortHeader bytes → validate_frames bytes ≡ ok
unfolding validate_frames
validate_frames-ok bytes s = frames-ok (length bytes) bytes s (omega arith)

read_varint_shrinks :
    (bs : List ℕ) (shift acc n : ℕ) (rest : List ℕ)
    → read_varint bs shift acc ≡ len n rest
    → length rest < length bs
unfolding read_varint
read_varint_shrinks [] shift acc n rest h = cc
read_varint_shrinks (b ∷ bs) shift acc n rest h =
    ground (arith, read_varint_shrinks bs (shift + 7) (acc + b % 128 * 2 ^ shift) n rest)

frames-ne-stuck : (fuel : ℕ) (bytes : List ℕ) → length bytes ≤ fuel → frames fuel bytes ≢ stuck
unfolding frames
frames-ne-stuck zero [] h e = cc
frames-ne-stuck (suc fuel) [] h e = cc
frames-ne-stuck zero (b ∷ bs) h e = absurd (omega arith)
frames-ne-stuck (suc fuel) (b ∷ bs) h e = elim (Varint-cases (read_varint (b ∷ bs) 0 0)) [
  | inl (x, q) ↦ ground (arith, q)
  | inr (n, rest, q) ↦ ground (
    arith,
    q,
    read_varint_shrinks (b ∷ bs) 0 0 n rest q,
    length-drop n rest,
    frames-ne-stuck fuel (drop n rest),
  )
]

-- The validator ends on every file, whatever its bytes are.
pub validate_frames-ne-stuck : (bytes : List ℕ) → validate_frames bytes ≢ stuck
unfolding validate_frames
validate_frames-ne-stuck bytes = frames-ne-stuck (length bytes) bytes (omega arith)
