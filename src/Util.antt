-- ===== src/Util.antt =====
-- src/util.rs: compact integers, command names, and the hash over the SHA-256 of the `sha2` crate.
pub mod Compact
pub mod Command
use avicoin.Prelude.{
  ℕ, zero, suc, ◌+◌, ◌-◌, ◌^◌, ◌%◌, ◌≤◌, ◌<◌, ◌≡◌, Bool, true, false, not, Option, none, some, List,
  [], ◌∷◌, ◌++◌, leb, ◌==◌, if◌then◌else◌, length, take, replicate,
}
use avicoin.Outcome.{Result, ok, err, ◌>>=◌, ◌>>◌, assert, refuse_if, invalid_command_padding}
use avicoin.Words.{Bytes, IsArray, to_le_bytes}
use avicoin.Text.{is_ascii, from_utf8}

-- `Sha256::digest` of the `sha2` crate.
pub record Sha256 : Type 0 where
  pub digest : Bytes → Bytes
  pub digest-IsArray : (bs : Bytes) → IsArray 32 (digest bs)

unfoldable pub get_hash : Sha256 → Bytes → Bytes
get_hash sha bs = sha.digest (sha.digest bs)

pub get_hash-IsArray : (sha : Sha256) (bs : Bytes) → IsArray 32 (get_hash sha bs)
unfolding get_hash
get_hash-IsArray sha bs = sha.digest-IsArray (sha.digest bs)

unfoldable pub get_compact_int : ℕ → Bytes
get_compact_int number =
    if leb number 252
    then to_le_bytes 1 (number % 2 ^ 8)
    else if leb number 0xffff
    then 0xfd ∷ to_le_bytes 2 (number % 2 ^ 16)
    else if leb number 0xffff_ffff
    then 0xfe ∷ to_le_bytes 4 (number % 2 ^ 32)
    else 0xff ∷ to_le_bytes 8 number

-- `cmd` is the bytes of the `&str`.
unfoldable pub command_12 : Bytes → Result Bytes
command_12 cmd = do
  assert (leb (length cmd) 12)
  assert (is_ascii cmd)
  ok (cmd ++ replicate (12 - length cmd) 0)

-- `iterator.position(p)`: the index of the first hit, and what the iterator has left behind it.
abbrev pub count_one : Option ℕ × Bytes → Option ℕ × Bytes
count_one (none, rest) = (none, rest)
count_one (some i, rest) = (some (suc i), rest)

unfoldable pub position : (ℕ → Bool) → Bytes → Option ℕ × Bytes
position p [] = (none, [])
position p (b ∷ bs) = if p b then (some 0, bs) else count_one (position p bs)

abbrev pub is_some {ℓ} : {A : Type ℓ} → Option A → Bool
is_some none = false
is_some (some a) = true

unfoldable pub cleaned_bytes : Bytes → Option ℕ × Bytes → Result Bytes
cleaned_bytes cmd_bytes (none, iterator) = ok cmd_bytes
cleaned_bytes cmd_bytes (some i, iterator) = do
  refuse_if (is_some (position (λ b. not (b == 0)) iterator).0) invalid_command_padding
  ok (take i cmd_bytes)

unfoldable pub parse_command_12 : Bytes → Result Bytes
parse_command_12 cmd_bytes = do
  cleaned ← cleaned_bytes cmd_bytes (position (λ b. b == 0) cmd_bytes)
  refuse_if (not (is_ascii cleaned)) invalid_command_padding
  from_utf8 cleaned
