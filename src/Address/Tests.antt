-- ===== src/Address/Tests.antt =====
-- Addresses with a hash function that answers the same for all texts.
use bcos_dispatcher.Base.{ℕ, zero, suc, ◌<◌, ◌≡◌, refl, none, some, [], ◌∷◌, arith, All, length}
use bcos_dispatcher.Base.Text.{Text}
use bcos_dispatcher.Address.{
  checksum, to_checksum_address, preprocess_address, new_evm_address, new_evm_address_salted, lower,
}
use bcos_dispatcher.Address.Cases.{preprocess_address-to_checksum_address}
use bcos_dispatcher.Address.Length.{IsHex, IsByte, new_evm_address-IsHex}

abbrev fill : ℕ → ℕ → Text
fill zero b = []
fill (suc n) b = b ∷ fill n b

length-fill : (n b : ℕ) → length (fill n b) ≡ n
length-fill zero b = refl
length-fill (suc n) b = omega (arith, length-fill n b)

All-fill : (n b : ℕ) → b < 256 → All IsByte (fill n b)
All-fill zero b h = tt
All-fill (suc n) b h = (h, All-fill n b h)

-- The bytes 0xab, and the digits `9ab5...`.
abbrev hash : Text → Text
hash t = fill 32 171

abbrev hash_hex : Text → Text
hash_hex t = 57 ∷ 48 ∷ 98 ∷ 53 ∷ fill 60 53

-- `aBc1` becomes `AbC1`.
checksum_run : to_checksum_address hash_hex (97 ∷ 66 ∷ 99 ∷ 49 ∷ []) ≡ some (65 ∷ 98 ∷ 67 ∷ 49 ∷ [])
unfolding to_checksum_address
checksum_run = refl

past_end : checksum (97 ∷ 98 ∷ []) (57 ∷ []) ≡ none
unfolding checksum
past_end = refl

preprocess_address-to_checksum_address_example :
    preprocess_address (48 ∷ 120 ∷ 65 ∷ 98 ∷ 67 ∷ 49 ∷ []) ≡ some (lower (97 ∷ 66 ∷ 99 ∷ 49 ∷ []))
preprocess_address-to_checksum_address_example =
    preprocess_address-to_checksum_address hash_hex (97 ∷ 66 ∷ 99 ∷ 49 ∷ [])
      (65 ∷ 98 ∷ 67 ∷ 49 ∷ []) checksum_run

abbrev digit : ℕ → Text
digit n = 48 ∷ []

new_evm_address-IsHex_example :
    IsHex 40 (new_evm_address hash hash_hex digit 1 2 3)
    × IsHex 40 (new_evm_address_salted hash hash_hex digit (1 ∷ []) (2 ∷ []) 5)
new_evm_address-IsHex_example =
    new_evm_address-IsHex hash hash_hex (λ t. length-fill 32 171)
      (λ t. All-fill 32 171 (omega arith)) (λ t. omega (arith, length-fill 60 53)) digit digit 1 2 3
      (1 ∷ []) (2 ∷ []) 5
