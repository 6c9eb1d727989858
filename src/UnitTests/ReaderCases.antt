-- ===== src/UnitTests/ReaderCases.antt =====
-- The parametrised tests of src/byte_reader.rs.
use avicoin.Prelude.{ℕ, ◌+◌, ◌-◌, ◌^◌, ◌≡◌, refl, true, [], ◌∷◌, replicate}
use avicoin.Outcome.{ok}
use avicoin.Words.{Bytes, from_le_bytes}
use avicoin.Reader.{
  Read, ◌>>=◌, pure, new, take_bytes, take_array, read_byte, read_u16, read_u32, read_i32, read_u64,
  read_array, read_bytes, read_compact,
}
use avicoin.UnitTests.{is_ok, is_err}

-- The seven reads of the parametrised tests.
abbrev a_byte : Read (Unit {0})
a_byte = do _ ← read_byte; pure tt

abbrev an_u16 : Read (Unit {0})
an_u16 = do _ ← read_u16; pure tt

abbrev an_u32 : Read (Unit {0})
an_u32 = do _ ← read_u32; pure tt

abbrev an_i32 : Read (Unit {0})
an_i32 = do _ ← read_i32; pure tt

abbrev an_u64 : Read (Unit {0})
an_u64 = do _ ← read_u64; pure tt

abbrev array32 : Read (Unit {0})
array32 = do _ ← read_array 32; pure tt

abbrev bytes7 : Read (Unit {0})
bytes7 = do _ ← read_bytes 7; pure tt

abbrev ExactlyEnoughBytesSucceeds : ℕ → Read (Unit {0}) → Type 0
ExactlyEnoughBytesSucceeds width read = is_ok (read (new (replicate width 0))).0 ≡ true

abbrev OneByteShortFails : ℕ → Read (Unit {0}) → Type 0
OneByteShortFails width read = is_err (read (new (replicate (width - 1) 0))).0 ≡ true

abbrev AReaderAtTheEndFailsEveryRead : Read (Unit {0}) → Type 0
AReaderAtTheEndFailsEveryRead read =
    let (taken, r) = read_bytes 64 (new (replicate 64 0)) in
    (is_ok taken ≡ true) × (is_err (read r).0 ≡ true)

abbrev ACompactIntReadsItsFullWidth : Bytes → ℕ → Type 0
ACompactIntReadsItsFullWidth encoded expected = (read_compact (new encoded)).0 ≡ ok expected

abbrev ATruncatedCompactIntFails : Bytes → Type 0
ATruncatedCompactIntFails encoded = is_err (read_compact (new encoded)).0 ≡ true

abbrev ASizeThatWouldWrapTheCursorIsRejected : ℕ → Type 0
ASizeThatWouldWrapTheCursorIsRejected size =
    let (taken, r) = read_bytes 5 (new (replicate 16 0)) in
    (is_ok taken ≡ true) × (is_err (read_bytes size r).0 ≡ true)

abbrev AFailedReadDoesNotMoveTheCursor : Type 0
AFailedReadDoesNotMoveTheCursor =
    let (a, r) = read_u64 (new (1 ∷ 2 ∷ 3 ∷ [])) in
    let (b, r') = read_bytes (2 ^ 64 - 1) r in
    (is_err a ≡ true) × (is_err b ≡ true) × ((read_byte r').0 ≡ ok 1)

-- They pass.
reader_cases_pass :
    (ExactlyEnoughBytesSucceeds 1 a_byte
      × ExactlyEnoughBytesSucceeds 2 an_u16
      × ExactlyEnoughBytesSucceeds 4 an_u32
      × ExactlyEnoughBytesSucceeds 4 an_i32
      × ExactlyEnoughBytesSucceeds 8 an_u64
      × ExactlyEnoughBytesSucceeds 32 array32
      × ExactlyEnoughBytesSucceeds 7 bytes7)
    × (OneByteShortFails 1 a_byte
        × OneByteShortFails 2 an_u16
        × OneByteShortFails 4 an_u32
        × OneByteShortFails 4 an_i32
        × OneByteShortFails 8 an_u64
        × OneByteShortFails 32 array32
        × OneByteShortFails 7 bytes7)
    × (AReaderAtTheEndFailsEveryRead a_byte
        × AReaderAtTheEndFailsEveryRead an_u16
        × AReaderAtTheEndFailsEveryRead an_u32
        × AReaderAtTheEndFailsEveryRead an_i32
        × AReaderAtTheEndFailsEveryRead an_u64
        × AReaderAtTheEndFailsEveryRead array32
        × AReaderAtTheEndFailsEveryRead bytes7)
    × (ACompactIntReadsItsFullWidth (0x07 ∷ []) 7
        × ACompactIntReadsItsFullWidth (0xfd ∷ 0x34 ∷ 0x12 ∷ []) 0x1234
        × ACompactIntReadsItsFullWidth (0xfe ∷ 0x78 ∷ 0x56 ∷ 0x34 ∷ 0x12 ∷ []) 0x1234_5678
        × ACompactIntReadsItsFullWidth (0xff ∷ 1 ∷ 0 ∷ 0 ∷ 0 ∷ 0 ∷ 0 ∷ 0 ∷ 0 ∷ []) 1)
    × (ATruncatedCompactIntFails (0xfd ∷ [])
        × ATruncatedCompactIntFails (0xfd ∷ 0x34 ∷ [])
        × ATruncatedCompactIntFails (0xfe ∷ 0x78 ∷ 0x56 ∷ 0x34 ∷ [])
        × ATruncatedCompactIntFails (0xff ∷ 1 ∷ 0 ∷ 0 ∷ 0 ∷ 0 ∷ 0 ∷ 0 ∷ []))
    × (ASizeThatWouldWrapTheCursorIsRejected (2 ^ 64 - 1)
        × ASizeThatWouldWrapTheCursorIsRejected (2 ^ 64 - 2)
        × ASizeThatWouldWrapTheCursorIsRejected (2 ^ 64 - 1 - 5 + 1))
    × AFailedReadDoesNotMoveTheCursor
unfolding new read_byte read_u16 read_u32 read_i32 read_u64 read_array read_bytes take_bytes
    take_array read_compact from_le_bytes
reader_cases_pass = (
  (refl, refl, refl, refl, refl, refl, refl),
  (refl, refl, refl, refl, refl, refl, refl),
  (
    (refl, refl),
    (refl, refl),
    (refl, refl),
    (refl, refl),
    (refl, refl),
    (refl, refl),
    (refl, refl),
  ),
  (refl, refl, refl, refl),
  (refl, refl, refl, refl),
  ((refl, refl), (refl, refl), (refl, refl)),
  (refl, refl, refl),
)
