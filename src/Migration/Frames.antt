-- ===== src/Migration/Frames.antt =====
-- `validate_frames` of crates/typedb-mcp-core/src/migration.rs, over the bytes of the data file: every
-- frame is a length as a varint and that many bytes of payload. The file is read once and does not
-- change meanwhile, so `used < n` says that bytes are left. `b & 127` is `b % 128`, and `b & 128` is 0
-- exactly when `b / 128 % 2` is. The bits of `len` lie below `shift`, so the `|=` of the source adds.
pub mod Stream
pub mod Accepts
use typedb_mcp.Prelude.{
  ℕ, zero, suc, ◌+◌, ◌*◌, ◌/◌, ◌%◌, ◌^◌, Bool, ◌&&◌, ◌||◌, List, [], ◌∷◌, ltb, leb, eqb,
  if◌then◌else◌, length, drop,
}

pub data FrameError : Type 0 where
  truncated_varint overflowing_varint payload_exceeds_remaining_bytes : FrameError

-- The inner loop: a length and the bytes behind it, or the error it returns with.
pub data Varint : Type 0 where
  len : ℕ → List ℕ → Varint
  bad : FrameError → Varint

unfoldable pub read_varint : List ℕ → ℕ → ℕ → Varint
read_varint [] shift acc = bad truncated_varint
read_varint (b ∷ bs) shift acc =
    let acc' = acc + b % 128 * 2 ^ shift in
    let more = read_varint bs (shift + 7) acc' in
    if leb 64 shift || (eqb shift 63 && ltb 1 b)
    then bad overflowing_varint
    else if eqb (b / 128 % 2) 0
    then len acc' bs
    else more

-- `stuck` means that the fuel ran out.
pub data Validated : Type 0 where
  ok : Validated
  invalid_frame : FrameError → Validated
  stuck : Validated

unfoldable pub frames : ℕ → List ℕ → Validated
frames fuel [] = ok
frames zero (b ∷ bs) = stuck
frames (suc fuel) (b ∷ bs) = elim (read_varint (b ∷ bs) 0 0) [
  | bad e ↦ invalid_frame e
  | len n rest ↦
      let next = frames fuel (drop n rest) in
      if ltb (length rest) n then invalid_frame payload_exceeds_remaining_bytes else next
]

-- Each round takes a byte at least, so `length bytes` rounds are enough.
unfoldable pub validate_frames : List ℕ → Validated
validate_frames bytes = frames (length bytes) bytes
