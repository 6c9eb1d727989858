-- ===== src/Outcome.antt =====
-- The outcome of a Rust call: `Ok`, `Err` with the message of an `anyhow::Error`, or a panic.
use avicoin.Prelude.{ℕ, ◌≡◌, refl, ◌⊎◌, inl, inr, Bool, true, false, Option, none, some, List}

-- One constructor for each message that the code builds; numbers are what the message prints.
pub data Error : Type 0 where
  eof_byte eof_u16 eof_u32 eof_i32 eof_u64 : Error
  eof_array eof_vec : ℕ → Error
  invalid_utf8 invalid_command_padding : Error
  merkle_root_required no_transaction hash_is_empty : Error
  header_too_short invalid_magic_bytes invalid_checksum : Error
  payload_too_large : ℕ → Error
  unknown_command : List ℕ → Error
  version_length verack_length : ℕ → Error
  verack_before_version version_after_handshake verack_after_handshake no_such_peer : Error
  cannot_keep_up no_handshake writer_panicked listener_panicked insufficient_funds : Error
  invalid_address : List ℕ → List ℕ → Error
  config_unreadable config_not_understood io_error : Error
  not_listening : Error → Error

pub data Result {ℓ} (A : Type ℓ) : Type ℓ where
  ok : A → Result A
  err : Error → Result A
  panic : Result A

-- The operator `?`, in do blocks.
infixl 5 ◌>>◌ ◌>>=◌
abbrev pub ◌>>=◌ {κ μ} : {T : Type κ} {U : Type μ} → Result T → (T → Result U) → Result U
panic >>= next = panic
err problem >>= next = err problem
ok value >>= next = next value

abbrev pub ◌>>◌ {κ} : {U : Type κ} → Result (Unit {0}) → Result U → Result U
first >> second = first >>= λ nothing. second

-- `if b { return Err(e) }`.
abbrev pub refuse_if : Bool → Error → Result (Unit {0})
refuse_if true e = err e
refuse_if false e = ok tt

-- `assert!(b)`.
abbrev pub assert : Bool → Result (Unit {0})
assert true = ok tt
assert false = panic

-- `.ok_or_else(|| e)`, and anyhow's `.context(e)` on an `Option`.
abbrev pub ok_or {ℓ} : {A : Type ℓ} → Option A → Error → Result A
ok_or none e = err e
ok_or (some a) e = ok a

-- `.expect(…)`.
abbrev pub expect {ℓ} : {A : Type ℓ} → Option A → Result A
expect none = panic
expect (some a) = ok a

module _ {ℓ} {T : Type ℓ} where
  pub Result-cases :
      (r : Result T)
      → ((value : T) × (r ≡ ok value)) ⊎ ((problem : Error) × (r ≡ err problem)) ⊎ (r ≡ panic)
  Result-cases panic = inr (inr refl)
  Result-cases (err problem) = inr (inl (problem, refl))
  Result-cases (ok value) = inl (value, refl)

  -- Where two steps have succeeded, the first has, and the second has on its value.
  pub >>=-succeeds {κ} :
      {U : Type κ} (first : Result T) (next : T → Result U) {result : U}
      → ok result ≡ (first >>= next)
      → (value : T) × (ok result ≡ next value) × (first ≡ ok value)
  >>=-succeeds panic next both = cc
  >>=-succeeds (err problem) next both = cc
  >>=-succeeds (ok value) next both = (value, both, refl)
