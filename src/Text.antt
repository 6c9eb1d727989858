-- ===== src/Text.antt =====
-- Rust's `str` as its bytes: `u8::is_ascii`, `String::from_utf8`, `str::from_utf8`.
use avicoin.Prelude.{
  ℕ, ◌≡◌, refl, Bool, true, false, ◌&&◌, List, [], ◌∷◌, arith, ltb, leb, ◌==◌, if◌then◌else◌,
}
use avicoin.Outcome.{Result, ok, err, invalid_utf8}
use avicoin.Words.{Bytes}

unfoldable pub is_ascii : Bytes → Bool
is_ascii [] = true
is_ascii (b ∷ bs) = ltb b 128 && is_ascii bs

-- The ranges in which the bytes that follow a leading byte must lie (Unicode, table 3-7).
abbrev Ranges : Type 0
Ranges = List (ℕ × ℕ)

abbrev in_range : ℕ × ℕ → ℕ → Bool
in_range (lo, hi) b = leb lo b && leb b hi

cont : ℕ × ℕ
cont = (0x80, 0xbf)

-- What must follow the leading byte `b`; a byte that leads nothing wants a byte that there is not.
following : ℕ → Ranges
unfolding cont
following b =
    if ltb b 0x80
    then []
    else if in_range (0xc2, 0xdf) b
    then cont ∷ []
    else if b == 0xe0
    then (0xa0, 0xbf) ∷ cont ∷ []
    else if b == 0xed
    then (0x80, 0x9f) ∷ cont ∷ []
    else if in_range (0xe1, 0xef) b
    then cont ∷ cont ∷ []
    else if b == 0xf0
    then (0x90, 0xbf) ∷ cont ∷ cont ∷ []
    else if in_range (0xf1, 0xf3) b
    then cont ∷ cont ∷ cont ∷ []
    else if b == 0xf4
    then (0x80, 0x8f) ∷ cont ∷ cont ∷ []
    else (1, 0) ∷ []

utf8_from : Ranges → Bytes → Bool
utf8_from [] [] = true
utf8_from (p ∷ ps) [] = false
utf8_from [] (b ∷ bs) = utf8_from (following b) bs
utf8_from (p ∷ ps) (b ∷ bs) = in_range p b && utf8_from ps bs

unfoldable pub is_utf8 : Bytes → Bool
unfolding utf8_from following
is_utf8 bs = utf8_from [] bs

unfoldable pub from_utf8 : Bytes → Result Bytes
from_utf8 bs = if is_utf8 bs then ok bs else err invalid_utf8

pub from_utf8_valid : (bs : Bytes) → is_utf8 bs ≡ true → from_utf8 bs ≡ ok bs
unfolding from_utf8
from_utf8_valid bs h = rw h

-- ASCII text is UTF-8.
pub is_ascii→is_utf8 : (bs : Bytes) → is_ascii bs ≡ true → is_utf8 bs ≡ true
unfolding is_ascii is_utf8
is_ascii→is_utf8 [] h = refl
is_ascii→is_utf8 (b ∷ bs) h = ground (arith, is_ascii→is_utf8 bs)
