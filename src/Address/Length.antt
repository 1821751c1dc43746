-- ===== src/Address/Length.antt =====
-- New addresses are forty hexadecimal digits.
use bcos_dispatcher.Base.{
  ℕ, zero, suc, ◌+◌, ◌/◌, ◌%◌, ◌<◌, ◌≤◌, ◌≡◌, refl, ◌⊎◌, Option, none, some, [], ◌∷◌, ◌++◌, length,
  leb, arith, if_elim, All, subst,
}
use bcos_dispatcher.Base.Text.{Text}
use bcos_dispatcher.Address.{
  to_lower, to_upper, is_digit, prepend, tail, checksum_char, checksum, lower, to_checksum_address,
  convert_hex_char_to_int, hex_digit, hex, checksum_of, new_evm_address, new_evm_address_salted,
}

-- 0-9, A-F, or a-f.
abbrev pub IsHexDigit : ℕ → Type 0
IsHexDigit c = ((48 ≤ c) × (c ≤ 57)) ⊎ (((65 ≤ c) × (c ≤ 70)) ⊎ ((97 ≤ c) × (c ≤ 102)))

-- A text of so many hexadecimal digits.
abbrev pub IsHex : ℕ → Option Text → Type 0
IsHex n none = ⊥
IsHex n (some t) = (length t ≡ n) × All IsHexDigit t

abbrev pub IsByte : ℕ → Type 0
IsByte b = b < 256

prepend-IsHex : (c n : ℕ) (o : Option Text) → IsHexDigit c → IsHex n o → IsHex (suc n) (prepend c o)
unfolding prepend
prepend-IsHex c n none h k = absurd k
prepend-IsHex c n (some t) h k = (omega (arith, k.0), (h, k.1))

hex_digit-IsHexDigit : (d : ℕ) → d < 16 → IsHexDigit (hex_digit d)
unfolding hex_digit
hex_digit-IsHexDigit d h = ground arith

hex-IsHex : (n : ℕ) (t : Text) → n ≤ length t → All IsByte t → IsHex (n + n) (hex n t)
unfolding hex
hex-IsHex zero t h k = (refl, tt)
hex-IsHex (suc n) [] h k = absurd (omega arith)
hex-IsHex (suc n) (b ∷ t) h k =
    subst (λ m. IsHex m (prepend (hex_digit (b / 16)) (prepend (hex_digit (b % 16)) (hex n t))))
      (omega arith)
      (prepend-IsHex _ (suc (n + n)) _ (hex_digit-IsHexDigit (b / 16) (omega (arith, k.0))) (
        prepend-IsHex _ (n + n) _ (hex_digit-IsHexDigit (b % 16) (omega (arith, k.0)))
          (hex-IsHex n t (omega arith) k.1)))

lower-IsHex : (n : ℕ) (t : Text) → IsHex n (some t) → IsHex n (some (lower t))
unfolding lower to_lower
lower-IsHex n [] h = h
lower-IsHex zero (c ∷ t) h = absurd (omega (arith, h.0))
lower-IsHex (suc n) (c ∷ t) (l, (d, ds)) =
    let (l', ds') = lower-IsHex n t (omega (arith, l), ds) in
    (omega (arith, l'), (ground arith, ds'))

to_upper-IsHexDigit : (c : ℕ) → IsHexDigit c → IsHexDigit (to_upper c)
unfolding to_upper
to_upper-IsHexDigit c h = ground arith

checksum_char-IsHex :
    (c n : ℕ) (hash : Text) (o : Option Text)
    → 0 < length hash
    → IsHexDigit c
    → IsHex n o
    → IsHex (suc n) (checksum_char c hash o)
unfolding checksum_char
checksum_char-IsHex c n [] o l h k = absurd (omega arith)
checksum_char-IsHex c n (x ∷ hash) o l h k =
    prepend-IsHex _ n o
      (if_elim IsHexDigit (leb 8 (convert_hex_char_to_int x)) _ _ (λ _. to_upper-IsHexDigit c h)
        (λ _. h))
      k

tail-length : (n : ℕ) (t : Text) → suc n ≤ length t → n ≤ length (tail t)
tail-length n [] h = absurd (omega arith)
tail-length n (c ∷ t) h = omega arith

checksum-IsHex :
    (n : ℕ) (t hash : Text) → n ≤ length hash → IsHex n (some t) → IsHex n (checksum t hash)
unfolding checksum
checksum-IsHex n [] hash l h = h
checksum-IsHex zero (c ∷ t) hash l h = absurd (omega (arith, h.0))
checksum-IsHex (suc n) (c ∷ t) hash l (e, (d, ds)) =
    let rest = checksum-IsHex n t (tail hash) (tail-length n hash l) (omega (arith, e), ds) in
    if_elim (IsHex (suc n)) (is_digit c) _ _ (λ _. prepend-IsHex c n _ d rest)
      (λ _. checksum_char-IsHex c n hash _ (omega arith) d rest)

module _ (hash hash_hex : Text → Text) (hash_length : (t : Text) → length (hash t) ≡ 32)
    (hash_bytes : (t : Text) → All IsByte (hash t))
    (hash_hex_length : (t : Text) → length (hash_hex t) ≡ 64) where
  checksum_of-IsHex : (o : Option Text) → IsHex 40 o → IsHex 40 (checksum_of hash_hex o)
  unfolding checksum_of to_checksum_address
  checksum_of-IsHex none h = absurd h
  checksum_of-IsHex (some t) h =
      checksum-IsHex 40 (lower t) _ (omega (arith, hash_hex_length (lower t))) (lower-IsHex 40 t h)

  of_hash : (t : Text) → IsHex 40 (checksum_of hash_hex (hex 20 (hash t)))
  of_hash t =
      checksum_of-IsHex (hex 20 (hash t))
        (hex-IsHex 20 (hash t) (omega (arith, hash_length t)) (hash_bytes t))

  -- With hashes of 32 bytes, in hexadecimal 64 digits, both forms of `newEVMAddress` read no character
  -- past the end and return forty hexadecimal digits.
  pub new_evm_address-IsHex :
      (decimal to_big_endian : ℕ → Text) (block_number contextID seq : ℕ) (sender init : Text)
      (salt : ℕ)
      → IsHex 40 (new_evm_address hash hash_hex decimal block_number contextID seq)
        × IsHex 40 (new_evm_address_salted hash hash_hex to_big_endian sender init salt)
  unfolding new_evm_address new_evm_address_salted
  new_evm_address-IsHex decimal to_big_endian block_number contextID seq sender init salt = (
    of_hash (decimal block_number ++ (95 ∷ (decimal contextID ++ (95 ∷ decimal seq)))),
    of_hash ((255 ∷ []) ++ (sender ++ (to_big_endian salt ++ hash init))),
  )
