-- ===== src/Reader/Take.antt =====
-- What `take` and the readers of fixed width return, on enough bytes and on too few.
use avicoin.Prelude.{
  ℕ, zero, suc, ◌+◌, ◌^◌, ◌≤◌, ◌<◌, ◌≡◌, refl, ap, none, some, List, [], ◌∷◌, arith, length, take,
  length-take, length-drop,
}
use avicoin.Words.{Bytes}
use avicoin.Reader.{ByteReader, IsValid, new, remaining, advance, take_bytes, take_array}

pub new-IsValid : (bs : Bytes) → length bs < 2 ^ 64 → IsValid (new bs)
unfolding new
new-IsValid bs h = record { within = omega arith; addressable = h }

pub remaining-new : (bs : Bytes) → remaining (new bs) ≡ bs
unfolding new
remaining-new bs = refl

take_of_take {ℓ} : {A : Type ℓ} (n : ℕ) (xs : List A) → take n (take n xs) ≡ take n xs
take_of_take zero xs = refl
take_of_take (suc n) [] = refl
take_of_take (suc n) (x ∷ xs) = ap (◌∷◌ x) (take_of_take n xs)

module _ (r : ByteReader) (v : IsValid r) (n : ℕ) where
  fits_of_le : n ≤ length (remaining r) → r.position + n ≤ length r.bytes
  fits_of_le h = omega (arith, length-drop r.position r.bytes, v.within)

  pub take_bytes_enough :
      n ≤ length (remaining r) → take_bytes n r ≡ (some (take n (remaining r)), advance n r)
  unfolding take_bytes
  take_bytes_enough h = ground (arith, fits_of_le h, v.within, v.addressable)

  pub take_bytes_short : length (remaining r) < n → take_bytes n r ≡ (none, r)
  unfolding take_bytes
  take_bytes_short h = ground (arith, length-drop r.position r.bytes, v.within, v.addressable)

  pub take_array_enough :
      n ≤ length (remaining r) → take_array n r ≡ (some (take n (remaining r)), advance n r)
  unfolding take_array
  take_array_enough h =
      rw (take_bytes_enough h)
        (ground (arith, length-take n (remaining r), take_of_take n (remaining r)))

  pub take_array_short : length (remaining r) < n → take_array n r ≡ (none, r)
  unfolding take_array
  take_array_short h = rw (take_bytes_short h)
