-- ===== src/Address.antt =====
-- The addresses of contracts: bcos-scheduler/ChecksumAddress.h, and `newEVMAddress` and
-- `preprocessAddress` of BlockExecutive.cpp. The hash functions, the hexadecimal form of bytes and the
-- decimal form of a number come from other libraries and are parameters.
pub mod Cases
pub mod Length
mod Tests
use bcos_dispatcher.Base.{
  ℕ, zero, suc, ◌+◌, ◌-◌, ◌/◌, ◌%◌, Bool, true, false, ◌&&◌, ◌||◌, Option, none, some, List, [],
  ◌∷◌, ◌++◌, map, ltb, leb, ◌==◌, if◌then◌else◌,
}
use bcos_dispatcher.Base.Text.{Text}

-- `tolower`, `toupper` and `isdigit` of the C locale.
unfoldable pub to_lower : ℕ → ℕ
to_lower c = if leb 65 c && leb c 90 then c + 32 else c

unfoldable pub to_upper : ℕ → ℕ
to_upper c = if leb 97 c && leb c 122 then c - 32 else c

abbrev pub is_digit : ℕ → Bool
is_digit c = leb 48 c && leb c 57

unfoldable pub convert_hex_char_to_int : ℕ → ℕ
convert_hex_char_to_int byte =
    if leb 48 byte && leb byte 57
    then byte - 48
    else if leb 97 byte && leb byte 102
    then byte - 97 + 10
    else if leb 65 byte && leb byte 70
    then byte - 65 + 10
    else 0

unfoldable pub prepend : ℕ → Option Text → Option Text
prepend c none = none
prepend c (some t) = some (c ∷ t)

abbrev pub tail : Text → Text
tail [] = []
tail (_ ∷ t) = t

-- A character that is no digit, against the hash from its place on; `none` is a read past its end.
unfoldable pub checksum_char : ℕ → Text → Option Text → Option Text
unfolding prepend to_upper convert_hex_char_to_int
checksum_char c [] rest = none
checksum_char c (h ∷ _) rest =
    prepend (if leb 8 (convert_hex_char_to_int h) then to_upper c else c) rest

-- The loop of `toChecksumAddress(_addr, addressHashHex)`.
unfoldable pub checksum : Text → Text → Option Text
unfolding checksum_char prepend
checksum [] address_hash_hex = some []
checksum (c ∷ addr) address_hash_hex =
    let rest = checksum addr (tail address_hash_hex) in
    if is_digit c then prepend c rest else checksum_char c address_hash_hex rest

unfoldable pub lower : Text → Text
unfolding to_lower
lower [] = []
lower (c ∷ t) = to_lower c ∷ lower t

-- `toChecksumAddress(_hexAddress, _hashImpl)`; the parameter is the hash in hexadecimal.
unfoldable pub to_checksum_address : (Text → Text) → Text → Option Text
unfolding checksum lower
to_checksum_address hash_hex hex_address =
    checksum (lower hex_address) (hash_hex (lower hex_address))

-- `toChecksumAddressFromBytes`; the hexadecimal form of the bytes is a parameter.
unfoldable pub to_checksum_address_from_bytes :
    (to_hex_string hash_hex : Text → Text) → Text → Option Text
unfolding to_checksum_address
to_checksum_address_from_bytes to_hex_string hash_hex address_bytes =
    to_checksum_address hash_hex (to_hex_string address_bytes)

-- The characters are read before the length is known.
unfoldable pub preprocess_address : Text → Option Text
unfolding lower
preprocess_address [] = none
preprocess_address (a ∷ []) = if a == 48 then none else some (lower (a ∷ []))
preprocess_address (a ∷ b ∷ rest) =
    if a == 48 && b == 120 then some (lower rest) else some (lower (a ∷ b ∷ rest))

-- `boost::algorithm::hex` on the first bytes of a hash; `none` is a read past its end.
unfoldable pub hex_digit : ℕ → ℕ
hex_digit d = if ltb d 10 then d + 48 else d + 55

unfoldable pub hex : ℕ → Text → Option Text
unfolding prepend hex_digit
hex zero t = some []
hex (suc n) [] = none
hex (suc n) (b ∷ t) = prepend (hex_digit (b / 16)) (prepend (hex_digit (b % 16)) (hex n t))

unfoldable pub checksum_of : (Text → Text) → Option Text → Option Text
unfolding to_checksum_address
checksum_of hash_hex none = none
checksum_of hash_hex (some t) = to_checksum_address hash_hex t

-- `newEVMAddress(blockNumber, contextID, seq)`
unfoldable pub new_evm_address :
    (hash hash_hex : Text → Text) (decimal : ℕ → Text) → ℕ → ℕ → ℕ → Option Text
unfolding hex checksum_of
new_evm_address hash hash_hex decimal block_number contextID seq =
    checksum_of hash_hex
      (hex 20 (hash (decimal block_number ++ (95 ∷ (decimal contextID ++ (95 ∷ decimal seq))))))

-- `newEVMAddress(_sender, _init, _salt)`
unfoldable pub new_evm_address_salted :
    (hash hash_hex : Text → Text) (to_big_endian : ℕ → Text) → Text → Text → ℕ → Option Text
unfolding hex checksum_of
new_evm_address_salted hash hash_hex to_big_endian sender init salt =
    checksum_of hash_hex
      (hex 20 (hash ((255 ∷ []) ++ (sender ++ (to_big_endian salt ++ hash init)))))
