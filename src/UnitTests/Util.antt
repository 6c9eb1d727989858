-- ===== src/UnitTests/Util.antt =====
-- The tests of src/util.rs that do not need SHA-256 itself.
use avicoin.Prelude.{◌-◌, ◌^◌, ◌≡◌, refl, true, [], ◌∷◌, replicate}
use avicoin.Outcome.{ok, err, ◌>>=◌, invalid_command_padding}
use avicoin.Words.{to_le_bytes}
use avicoin.Text.{is_ascii, is_utf8, from_utf8}
use avicoin.Util.{get_compact_int, command_12, parse_command_12, cleaned_bytes, position}
use avicoin.UnitTests.{panics}

abbrev GetCompactIntSingleByteZero : Type 0
GetCompactIntSingleByteZero = get_compact_int 0 ≡ (0x00 ∷ [])

abbrev GetCompactIntSingleByteMax : Type 0
GetCompactIntSingleByteMax = get_compact_int 252 ≡ (0xfc ∷ [])

abbrev GetCompactIntTwoByteMin : Type 0
GetCompactIntTwoByteMin = get_compact_int 253 ≡ (0xfd ∷ 0xfd ∷ 0x00 ∷ [])

abbrev GetCompactIntTwoByteMax : Type 0
GetCompactIntTwoByteMax = get_compact_int 0xffff ≡ (0xfd ∷ 0xff ∷ 0xff ∷ [])

abbrev GetCompactIntFourByteMin : Type 0
GetCompactIntFourByteMin = get_compact_int 0x1_0000 ≡ (0xfe ∷ 0x00 ∷ 0x00 ∷ 0x01 ∷ 0x00 ∷ [])

abbrev GetCompactIntFourByteMax : Type 0
GetCompactIntFourByteMax = get_compact_int 0xffff_ffff ≡ (0xfe ∷ 0xff ∷ 0xff ∷ 0xff ∷ 0xff ∷ [])

abbrev GetCompactIntEightByteMin : Type 0
GetCompactIntEightByteMin =
    get_compact_int 0x1_0000_0000
    ≡ (0xff ∷ 0x00 ∷ 0x00 ∷ 0x00 ∷ 0x00 ∷ 0x01 ∷ 0x00 ∷ 0x00 ∷ 0x00 ∷ [])

abbrev GetCompactIntEightByteLarge : Type 0
GetCompactIntEightByteLarge =
    get_compact_int (2 ^ 64 - 1)
    ≡ (0xff ∷ 0xff ∷ 0xff ∷ 0xff ∷ 0xff ∷ 0xff ∷ 0xff ∷ 0xff ∷ 0xff ∷ [])

abbrev Command12ShortCommand : Type 0
Command12ShortCommand =
    command_12 (112 ∷ 105 ∷ 110 ∷ 103 ∷ [])
    ≡ ok (112 ∷ 105 ∷ 110 ∷ 103 ∷ 0 ∷ 0 ∷ 0 ∷ 0 ∷ 0 ∷ 0 ∷ 0 ∷ 0 ∷ [])

abbrev Command12MaxLength : Type 0
Command12MaxLength =
    command_12 (49 ∷ 50 ∷ 51 ∷ 52 ∷ 53 ∷ 54 ∷ 55 ∷ 56 ∷ 57 ∷ 48 ∷ 49 ∷ 50 ∷ [])
    ≡ ok (49 ∷ 50 ∷ 51 ∷ 52 ∷ 53 ∷ 54 ∷ 55 ∷ 56 ∷ 57 ∷ 48 ∷ 49 ∷ 50 ∷ [])

abbrev Command12EmptyString : Type 0
Command12EmptyString = command_12 [] ≡ ok (replicate 12 0)

abbrev Command12TooLong : Type 0
Command12TooLong =
    panics (command_12 (49 ∷ 50 ∷ 51 ∷ 52 ∷ 53 ∷ 54 ∷ 55 ∷ 56 ∷ 57 ∷ 48 ∷ 49 ∷ 50 ∷ 51 ∷ [])) ≡ true

abbrev Command12NonAscii : Type 0
Command12NonAscii = panics (command_12 (112 ∷ 105 ∷ 110 ∷ 103 ∷ 240 ∷ 159 ∷ 154 ∷ 128 ∷ [])) ≡ true

abbrev SerializeThenParseCommand12 : Type 0
SerializeThenParseCommand12 =
    (command_12 (112 ∷ 105 ∷ 110 ∷ 103 ∷ [])
      ≡ ok (112 ∷ 105 ∷ 110 ∷ 103 ∷ 0 ∷ 0 ∷ 0 ∷ 0 ∷ 0 ∷ 0 ∷ 0 ∷ 0 ∷ []))
    × ((do bytes ← command_12 (112 ∷ 105 ∷ 110 ∷ 103 ∷ []); parse_command_12 bytes)
        ≡ ok (112 ∷ 105 ∷ 110 ∷ 103 ∷ []))

abbrev ParseCommand12FullLength : Type 0
ParseCommand12FullLength =
    parse_command_12 (49 ∷ 50 ∷ 51 ∷ 52 ∷ 53 ∷ 54 ∷ 55 ∷ 56 ∷ 57 ∷ 48 ∷ 49 ∷ 50 ∷ [])
    ≡ ok (49 ∷ 50 ∷ 51 ∷ 52 ∷ 53 ∷ 54 ∷ 55 ∷ 56 ∷ 57 ∷ 48 ∷ 49 ∷ 50 ∷ [])

abbrev ParseCommand12Empty : Type 0
ParseCommand12Empty = parse_command_12 (replicate 12 0) ≡ ok []

abbrev ParseCommand12InvalidPadding : Type 0
ParseCommand12InvalidPadding =
    parse_command_12 (112 ∷ 105 ∷ 110 ∷ 103 ∷ 0 ∷ 116 ∷ 101 ∷ 115 ∷ 116 ∷ 0 ∷ 0 ∷ 0 ∷ [])
    ≡ err invalid_command_padding

abbrev ParseCommand12ValidPadding : Type 0
ParseCommand12ValidPadding =
    parse_command_12 (118 ∷ 101 ∷ 114 ∷ 115 ∷ 105 ∷ 111 ∷ 110 ∷ 0 ∷ 0 ∷ 0 ∷ 0 ∷ 0 ∷ [])
    ≡ ok (118 ∷ 101 ∷ 114 ∷ 115 ∷ 105 ∷ 111 ∷ 110 ∷ [])

-- They pass.
util_tests_pass :
    GetCompactIntSingleByteZero × GetCompactIntSingleByteMax × GetCompactIntTwoByteMin
    × GetCompactIntTwoByteMax × GetCompactIntFourByteMin × GetCompactIntFourByteMax
    × GetCompactIntEightByteMin × GetCompactIntEightByteLarge × Command12ShortCommand
    × Command12MaxLength × Command12EmptyString × Command12TooLong × Command12NonAscii
    × SerializeThenParseCommand12 × ParseCommand12FullLength × ParseCommand12Empty
    × ParseCommand12InvalidPadding × ParseCommand12ValidPadding
unfolding get_compact_int to_le_bytes command_12 is_ascii parse_command_12 cleaned_bytes position
    from_utf8 is_utf8
util_tests_pass = (
  refl,
  refl,
  refl,
  refl,
  refl,
  refl,
  refl,
  refl,
  refl,
  refl,
  refl,
  refl,
  refl,
  (refl, refl),
  refl,
  refl,
  refl,
  refl,
)
