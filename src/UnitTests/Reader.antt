-- ===== src/UnitTests/Reader.antt =====
-- The tests of src/byte_reader.rs.
use avicoin.Prelude.{◌≡◌, refl, [], ◌∷◌}
use avicoin.Prelude.Int.{ℤ, i32_of_bits}
use avicoin.Outcome.{ok, err, eof_byte, eof_u16, eof_u32, eof_i32, eof_u64, eof_array}
use avicoin.Words.{from_le_bytes}
use avicoin.Reader.{
  new, take_bytes, take_array, read_byte, read_u16, read_u32, read_i32, read_u64, read_array,
  read_compact,
}

abbrev TestReadByteEmpty : Type 0
TestReadByteEmpty = (read_byte (new [])).0 ≡ err eof_byte

abbrev TestMixedTypeReads : Type 0
TestMixedTypeReads =
    let (a, r1) = read_byte (new (42 ∷ 1 ∷ 2 ∷ 3 ∷ 4 ∷ 5 ∷ 6 ∷ 7 ∷ 8 ∷ [])) in
    let (b, r2) = read_u32 r1 in
    let (c, r3) = read_u16 r2 in
    let (d, r4) = read_byte r3 in
    let (e, r5) = read_byte r4 in
    (a ≡ ok 42)
    × (b ≡ ok 0x04030201)
    × (c ≡ ok 0x0605)
    × (d ≡ ok 7)
    × (e ≡ ok 8)
    × ((read_byte r5).0 ≡ err eof_byte)

abbrev TestReadU16 : Type 0
TestReadU16 =
    let (a, r) = read_u16 (new (0x34 ∷ 0x12 ∷ [])) in
    (a ≡ ok 0x1234) × ((read_u16 r).0 ≡ err eof_u16)

abbrev TestReadU32 : Type 0
TestReadU32 =
    let (a, r) = read_u32 (new (0x78 ∷ 0x56 ∷ 0x34 ∷ 0x12 ∷ [])) in
    (a ≡ ok 0x1234_5678) × ((read_u32 r).0 ≡ err eof_u32)

abbrev TestReadI32 : Type 0
TestReadI32 =
    let (a, r) = read_i32 (new (0x78 ∷ 0x56 ∷ 0x34 ∷ 0x12 ∷ [])) in
    let (b, r') = read_i32 (new (0xff ∷ 0xff ∷ 0xff ∷ 0xff ∷ [])) in
    (a ≡ ok (ℤ.pos 0x1234_5678)) × (b ≡ ok (ℤ.negsuc 0)) × ((read_i32 r').0 ≡ err eof_i32)

abbrev TestReadU64 : Type 0
TestReadU64 =
    let (a, r) = read_u64 (new (0x01 ∷ 0x02 ∷ 0x03 ∷ 0x04 ∷ 0x05 ∷ 0x06 ∷ 0x07 ∷ 0x08 ∷ [])) in
    (a ≡ ok 0x0807_0605_0403_0201) × ((read_u64 r).0 ≡ err eof_u64)

abbrev TestReadArray : Type 0
TestReadArray =
    let (a, r) = read_array 4 (new (0xaa ∷ 0xbb ∷ 0xcc ∷ 0xdd ∷ 0xee ∷ [])) in
    let (b, r') = read_array 1 r in
    (a ≡ ok (0xaa ∷ 0xbb ∷ 0xcc ∷ 0xdd ∷ []))
    × (b ≡ ok (0xee ∷ []))
    × ((read_array 1 r').0 ≡ err (eof_array 1))

abbrev TestReadCompactSingleByte : Type 0
TestReadCompactSingleByte = (read_compact (new (0x42 ∷ []))).0 ≡ ok 0x42

abbrev TestReadCompactTwoBytes : Type 0
TestReadCompactTwoBytes = (read_compact (new (0xfd ∷ 0x34 ∷ 0x12 ∷ []))).0 ≡ ok 0x1234

abbrev TestReadCompactFourBytes : Type 0
TestReadCompactFourBytes =
    (read_compact (new (0xfe ∷ 0x78 ∷ 0x56 ∷ 0x34 ∷ 0x12 ∷ []))).0 ≡ ok 0x1234_5678

abbrev TestReadCompactEightBytes : Type 0
TestReadCompactEightBytes =
    (read_compact (new (0xff ∷ 0x21 ∷ 0x43 ∷ 0x65 ∷ 0x87 ∷ 0x09 ∷ 0xba ∷ 0xdc ∷ 0xfe ∷ []))).0
    ≡ ok 0xfedc_ba09_8765_4321

-- They pass.
reader_tests_pass :
    TestReadByteEmpty × TestMixedTypeReads × TestReadU16 × TestReadU32 × TestReadI32 × TestReadU64
    × TestReadArray × TestReadCompactSingleByte × TestReadCompactTwoBytes × TestReadCompactFourBytes
    × TestReadCompactEightBytes
unfolding new read_byte take_bytes read_u16 read_u32 take_array from_le_bytes read_i32 i32_of_bits
    read_u64 read_array read_compact
reader_tests_pass = (
  refl,
  (refl, refl, refl, refl, refl, refl),
  (refl, refl),
  (refl, refl),
  (refl, refl, refl),
  (refl, refl),
  (refl, refl, refl),
  refl,
  refl,
  refl,
  refl,
)
