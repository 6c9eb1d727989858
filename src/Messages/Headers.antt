-- ===== src/Messages/Headers.antt =====
-- The headers that the parser accepts.
use avicoin.Prelude.{
  ◌≡◌, inl, inr, refl, sym, ap, ◌∙◌, subst, Bool, true, false, not, [], ◌++◌, arith, length, All,
  bytes_eq, bytes_eq→eq, Bool-cases, append-nil, length-append, le→ltb,
}
use mathlib.Core.Path.{ap₂}
use avicoin.Outcome.{Error, ok, refuse_if, invalid_magic_bytes}
use avicoin.Words.{Bytes, IsByte, to_le_bytes, length-to_le_bytes}
use avicoin.Reader.{lift, read_u32, read_array}
use avicoin.Reader.Gets.{Gets, Gets-bind, Gets-pure, Gets-lift, got_new}
use avicoin.Reader.Gets.Primitive.{Gets-read_u32, Gets-read_array}
use avicoin.Messages.Frame.{
  Header, magic, header_length, header_bytes, read_header, from_raw_format,
}
use avicoin.Messages.Canonical.{only_front}

pub refused : (b : Bool) (e : Error) → refuse_if b e ≡ ok tt → b ≡ false
refused true x e = cc
refused false x e = refl

pub same_bytes : (xs ys : Bytes) (x : Error) → refuse_if (not (bytes_eq xs ys)) x ≡ ok tt → xs ≡ ys
same_bytes xs ys x e = elim (Bool-cases (bytes_eq xs ys)) [
  | inl same ↦ bytes_eq→eq xs ys same
  | inr other ↦ cc (rw (other) at e)
]

-- The header: its bytes, the magic ones in front.
abbrev pub IsHeaderOf : Header → Bytes → Type 0
IsHeaderOf h xs =
    (xs ≡ header_bytes h)
    × (h.magic_bytes ≡ magic)
    × (length h.command_name ≡ 12)
    × (length h.checksum ≡ 4)

Gets-read_header : Gets IsHeaderOf read_header
unfolding read_header header_bytes
Gets-read_header =
    Gets-bind _ _ _
      (λ magic_bytes as' first.
        Gets-bind (λ _ bs. (bs ≡ []) × (magic_bytes ≡ magic)) _ _
          (λ _ bs magical.
            Gets-bind _ _ _
              (λ command cs named.
                Gets-bind _ _ _
                  (λ size ds sized.
                    Gets-bind _ _ _
                      (λ checksum es summed. Gets-pure _ _ (
                        ap₂ ◌++◌ (sym first.0) (
                            ap₂ ◌++◌ magical.0 (
                              ap₂ ◌++◌ (sym named.0)
                                (ap₂ ◌++◌ sized.0 (append-nil es ∙ sym summed.0)))),
                        magical.1,
                        named.1.0,
                        summed.1.0,
                      ))
                      (read_array 4) (Gets-read_array 4))
                  read_u32 Gets-read_u32)
              (read_array 12) (Gets-read_array 12))
          (lift (refuse_if (not (bytes_eq magic_bytes magic)) invalid_magic_bytes))
          (Gets-lift _ _ λ _ e. (refl, same_bytes _ _ _ e)))
      (read_array 4) (Gets-read_array 4)

length-header_bytes : (h : Header) (xs : Bytes) → IsHeaderOf h xs → length xs ≡ header_length
unfolding header_bytes
length-header_bytes h xs (form, m, c, s) = omega (
  arith,
  ap length form,
  length-append h.magic_bytes (h.command_name ++ (to_le_bytes 4 h.payload_size ++ h.checksum)),
  length-append h.command_name (to_le_bytes 4 h.payload_size ++ h.checksum),
  length-append (to_le_bytes 4 h.payload_size) h.checksum,
  length-to_le_bytes 4 h.payload_size,
  ap length m,
  c,
  s,
)

pub from_raw_format-IsHeaderOf :
    (bytes : Bytes) (h : Header)
    → length bytes ≡ header_length
    → All IsByte bytes
    → from_raw_format bytes ≡ ok h
    → IsHeaderOf h bytes
unfolding from_raw_format
from_raw_format-IsHeaderOf bytes h len b e =
    let (xs, split, form) =
      got_new IsHeaderOf read_header bytes h (omega (arith, len)) b Gets-read_header
        (rw (le→ltb (length bytes) header_length (omega (arith, len))) at e) in
    let none_left =
      only_front xs _ bytes split (omega (arith, len, length-header_bytes h xs form)) in
    subst (IsHeaderOf h) (sym none_left) form
