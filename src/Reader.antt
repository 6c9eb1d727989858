-- ===== src/Reader.antt =====
-- src/byte_reader.rs: a cursor over a byte slice.
-- A method on `&mut self` returns its result with the reader that it leaves behind.
pub mod Take
pub mod Reads
pub mod Keeps
pub mod Wide
pub mod Yields
pub mod Gets
use avicoin.Prelude.{
  ℕ, zero, suc, ◌+◌, ◌-◌, ◌^◌, ◌≤◌, ◌<◌, Bool, true, false, Option, none, some, List, [], ◌∷◌, ltb,
  ◌==◌, if◌then◌else◌, length, take, drop,
}
use avicoin.Prelude.Int.{ℤ, i32_of_bits}
use avicoin.Outcome.{Result, ok, err, panic, Error, ok_or}
use avicoin.Outcome.{eof_byte, eof_u16, eof_u32, eof_i32, eof_u64, eof_array, eof_vec}
use avicoin.Words.{Bytes, from_le_bytes}

pub record ByteReader : Type 0 where
  pub bytes : Bytes
  pub position : ℕ

-- A method of the reader that can fail, and `?` between two of them.
abbrev pub Read {ℓ} : Type ℓ → Type ℓ
Read A = ByteReader → Result A × ByteReader

abbrev pub and_then {κ μ} :
    {T : Type κ} {U : Type μ} → Result T × ByteReader → (T → Read U) → Result U × ByteReader
and_then (panic, r) next = (panic, r)
and_then (err problem, r) next = (err problem, r)
and_then (ok value, r) next = next value r

infixl 5 ◌>>◌ ◌>>=◌
abbrev pub ◌>>=◌ {κ μ} : {T : Type κ} {U : Type μ} → Read T → (T → Read U) → Read U
◌>>=◌ reads next r = and_then (reads r) next

abbrev pub ◌>>◌ {κ} : {U : Type κ} → Read (Unit {0}) → Read U → Read U
first >> second = first >>= λ nothing. second

abbrev pub lift {ℓ} : {A : Type ℓ} → Result A → Read A
lift m r = (m, r)

abbrev pub pure {ℓ} : {A : Type ℓ} → A → Read A
pure a = lift (ok a)

unfoldable pub new : Bytes → ByteReader
new bytes = record { bytes = bytes; position = 0 }

-- `usize::checked_add`, on 64 bits.
abbrev pub checked_add : ℕ → ℕ → Option ℕ
checked_add a b = if ltb (a + b) (2 ^ 64) then some (a + b) else none

-- `&xs[lo..hi]`, for `lo ≤ hi` within the slice.
abbrev pub slice : ℕ → ℕ → Bytes → Bytes
slice lo hi xs = take (hi - lo) (drop lo xs)

-- `slice.first_chunk::<N>().copied()`.
abbrev pub first_chunk : ℕ → Bytes → Option Bytes
first_chunk n xs = if ltb (length xs) n then none else some (take n xs)

-- `Option::map` and `ok_or_else` on what a method returns.
abbrev pub map_ok {ℓ} :
    {A : Type ℓ} → (Bytes → A) → Error → Option Bytes × ByteReader → Result A × ByteReader
map_ok f e (none, r) = (err e, r)
map_ok f e (some bs, r) = (ok (f bs), r)

unfoldable pub take_bytes : ℕ → ByteReader → Option Bytes × ByteReader
take_bytes count r = elim (checked_add r.position count) [
  | none ↦ (none, r)
  | some end ↦
      if ltb (length r.bytes) end
      then (none, r)
      else (some (slice r.position end r.bytes), record r { position = end })
]

abbrev pub chunk : ℕ → Option Bytes × ByteReader → Option Bytes × ByteReader
chunk n (none, r) = (none, r)
chunk n (some bs, r) = (first_chunk n bs, r)

unfoldable pub take_array : ℕ → ByteReader → Option Bytes × ByteReader
take_array n r = chunk n (take_bytes n r)

-- `taken[0]` of a slice of one byte.
abbrev pub first_byte : Bytes → ℕ
first_byte [] = 0
first_byte (b ∷ bs) = b

unfoldable pub read_byte : Read ℕ
read_byte r = map_ok first_byte eof_byte (take_bytes 1 r)

unfoldable pub read_u16 : Read ℕ
read_u16 r = map_ok from_le_bytes eof_u16 (take_array 2 r)

unfoldable pub read_u32 : Read ℕ
read_u32 r = map_ok from_le_bytes eof_u32 (take_array 4 r)

unfoldable pub read_i32 : Read ℤ
read_i32 r = map_ok (λ bs. i32_of_bits (from_le_bytes bs)) eof_i32 (take_array 4 r)

unfoldable pub read_u64 : Read ℕ
read_u64 r = map_ok from_le_bytes eof_u64 (take_array 8 r)

unfoldable pub read_array : ℕ → Read Bytes
read_array n r = map_ok (λ bs. bs) (eof_array n) (take_array n r)

unfoldable pub read_bytes : ℕ → Read Bytes
read_bytes size r = map_ok (λ bs. bs) (eof_vec size) (take_bytes size r)

-- The byte that was read says how wide the number is.
unfoldable pub read_wide : ℕ → Read ℕ
read_wide v =
    if v == 0xfd
    then read_u16
    else if v == 0xfe
    then read_u32
    else if v == 0xff
    then read_u64
    else pure v

unfoldable pub read_compact : Read ℕ
unfolding read_wide
read_compact = do v ← read_byte; read_wide v

-- `for _ in 0..n { xs.push(p(reader)?) }`.
unfoldable pub repeat {ℓ} : {A : Type ℓ} → ℕ → Read A → Read (List A)
repeat zero p = pure []
repeat (suc n) p = do x ← p; xs ← repeat n p; pure (x ∷ xs)

-- The abstract view of a reader: what is still to be read.
abbrev pub remaining : ByteReader → Bytes
remaining r = drop r.position r.bytes

abbrev pub advance : ℕ → ByteReader → ByteReader
advance n r = record r { position = r.position + n }

-- The cursor is within a slice whose length is a `usize`.
pub record IsValid (r : ByteReader) : Type 0 where
  pub within : r.position ≤ length r.bytes
  pub addressable : length r.bytes < 2 ^ 64
