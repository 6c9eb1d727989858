-- ===== src/Reader/Wide.antt =====
-- `read_compact` on each of its four forms.
use avicoin.Prelude.{ℕ, ◌<◌, ◌≡◌, ◌∙◌, [], ◌∷◌, arith}
use avicoin.Outcome.{ok}
use avicoin.Words.{IsU16, IsU32, IsU64, to_le_bytes}
use avicoin.Reader.{ByteReader, read_wide, read_compact, read_byte}
use avicoin.Reader.Reads.{
  Reads, Reads-bind, Reads-pure, Reads-read_byte, Reads-read_u16, Reads-read_u32, Reads-read_u64,
}

read_wide_small : (v : ℕ) (r : ByteReader) → v < 0xfd → read_wide v r ≡ (ok v, r)
unfolding read_wide
read_wide_small v r h = ground arith

pub Reads-read_compact_small : (v : ℕ) → v < 0xfd → Reads read_compact (v ∷ []) v
unfolding read_compact
Reads-read_compact_small v h =
    Reads-bind read_byte _ (v ∷ []) [] v v (Reads-read_byte v)
      λ r rest valid e. read_wide_small v r h ∙ Reads-pure v r rest valid e

pub Reads-read_compact_u16 : (v : ℕ) → IsU16 v → Reads read_compact (0xfd ∷ to_le_bytes 2 v) v
unfolding read_compact read_wide
Reads-read_compact_u16 v h =
    Reads-bind read_byte _ (0xfd ∷ []) (to_le_bytes 2 v) 0xfd v (Reads-read_byte 0xfd)
      (Reads-read_u16 v h)

pub Reads-read_compact_u32 : (v : ℕ) → IsU32 v → Reads read_compact (0xfe ∷ to_le_bytes 4 v) v
unfolding read_compact read_wide
Reads-read_compact_u32 v h =
    Reads-bind read_byte _ (0xfe ∷ []) (to_le_bytes 4 v) 0xfe v (Reads-read_byte 0xfe)
      (Reads-read_u32 v h)

pub Reads-read_compact_u64 : (v : ℕ) → IsU64 v → Reads read_compact (0xff ∷ to_le_bytes 8 v) v
unfolding read_compact read_wide
Reads-read_compact_u64 v h =
    Reads-bind read_byte _ (0xff ∷ []) (to_le_bytes 8 v) 0xff v (Reads-read_byte 0xff)
      (Reads-read_u64 v h)
