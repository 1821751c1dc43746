-- ===== src/Address/Cases.antt =====
-- A checksum changes nothing but the case of letters.
use bcos_dispatcher.Base.{
  ℕ, ◌≡◌, refl, sym, ap, ◌∙◌, Option, none, some, [], ◌∷◌, leb, arith, if_elim,
}
use bcos_dispatcher.Base.Text.{Text}
use bcos_dispatcher.Address.{
  to_lower, to_upper, is_digit, prepend, tail, checksum_char, checksum, lower, to_checksum_address,
  convert_hex_char_to_int, preprocess_address,
}

to_lower-to_upper : (c : ℕ) → to_lower (to_upper c) ≡ to_lower c
unfolding to_lower to_upper
to_lower-to_upper c = ground arith

to_lower_idem : (c : ℕ) → to_lower (to_lower c) ≡ to_lower c
unfolding to_lower
to_lower_idem c = ground arith

lower_idem : (t : Text) → lower (lower t) ≡ lower t
unfolding lower
lower_idem [] = refl
lower_idem (c ∷ t) = rw (to_lower_idem c, lower_idem t)

-- The text is the same but for case.
abbrev pub SameLetters : Text → Option Text → Type 0
SameLetters t none = Unit {0}
SameLetters t (some u) = lower u ≡ lower t

prepend-SameLetters :
    (c d : ℕ) (t : Text) (o : Option Text)
    → to_lower d ≡ to_lower c
    → SameLetters t o
    → SameLetters (c ∷ t) (prepend d o)
unfolding prepend lower
prepend-SameLetters c d t none e h = tt
prepend-SameLetters c d t (some u) e h = rw (e, h)

checksum_char-SameLetters :
    (c : ℕ) (hash : Text) (t : Text) (o : Option Text)
    → SameLetters t o
    → SameLetters (c ∷ t) (checksum_char c hash o)
unfolding checksum_char
checksum_char-SameLetters c [] t o h = tt
checksum_char-SameLetters c (k ∷ hash) t o h =
    prepend-SameLetters c _ t o
      (if_elim (λ d. to_lower d ≡ to_lower c) (leb 8 (convert_hex_char_to_int k)) _ _
        (λ _. to_lower-to_upper c) (λ _. refl))
      h

checksum-SameLetters : (t hash : Text) → SameLetters t (checksum t hash)
unfolding checksum
checksum-SameLetters [] hash = refl
checksum-SameLetters (c ∷ t) hash =
    if_elim (SameLetters (c ∷ t)) (is_digit c) _ _
      (λ _. prepend-SameLetters c c t _ refl (checksum-SameLetters t (tail hash)))
      (λ _. checksum_char-SameLetters c hash t _ (checksum-SameLetters t (tail hash)))

same_letters : (t u : Text) (o : Option Text) → SameLetters t o → o ≡ some u → lower u ≡ lower t
same_letters t u none h e = absurd (cc)
same_letters t u (some v) h e = ap lower (sym (ground arith)) ∙ h

lower-to_checksum_address :
    (hash_hex : Text → Text) (t u : Text)
    → to_checksum_address hash_hex t ≡ some u
    → lower u ≡ lower t
unfolding to_checksum_address
lower-to_checksum_address hash_hex t u e =
    same_letters (lower t) u (checksum (lower t) (hash_hex (lower t)))
      (checksum-SameLetters (lower t) _) e
    ∙ lower_idem t

-- An address with its checksum has that checksum: `toChecksumAddress` leaves its own result as it is.
pub to_checksum_address_idem :
    (hash_hex : Text → Text) (t u : Text)
    → to_checksum_address hash_hex t ≡ some u
    → to_checksum_address hash_hex u ≡ some u
unfolding to_checksum_address
to_checksum_address_idem hash_hex t u e =
    ap (λ l. checksum l (hash_hex l)) (lower-to_checksum_address hash_hex t u e) ∙ e

-- `preprocessAddress` takes an address with `0x` and checksum back to lower case.
pub preprocess_address-to_checksum_address :
    (hash_hex : Text → Text) (t u : Text)
    → to_checksum_address hash_hex t ≡ some u
    → preprocess_address (48 ∷ 120 ∷ u) ≡ some (lower t)
unfolding preprocess_address
preprocess_address-to_checksum_address hash_hex t u e =
    ap some (lower-to_checksum_address hash_hex t u e)
