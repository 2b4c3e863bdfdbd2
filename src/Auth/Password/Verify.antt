-- ===== src/Auth/Password/Verify.antt =====
-- Verification of a password: against its own hash, by older verifiers, and what it costs.
use goplusplus.Prelude.{
  ℕ, ◌≡◌, refl, sym, ap, subst, ◌∙◌, ◌+◌, true, false, ◌||◌, List, [], ◌∷◌, ◌++◌, none, some, ltb,
  arith, length, Bool-cases, inl, inr, some-injective, none-some,
}
use goplusplus.Prelude.Int.{ℤ, ltb_ℤ}
use goplusplus.Prelude.Bytes.{Bytes, bytes_eq, bytes_eq_iff, has_prefix}
use goplusplus.Auth.PasswordHash.{
  PasswordConfig, PasswordOps, outside, validate_password_config, argon2id_prefix,
  derive_password_key, encode_argon2id_hash, parse_argon2id_hash,
}
use goplusplus.Auth.PasswordHash.Text.{
  HashLaws, encode_argon2id_hash-fits, encode_argon2id_hash-has_prefix,
  parse_argon2id_hash-encode_argon2id_hash,
}
use goplusplus.Auth.Password.{
  password_invalid, password_valid, PasswordCompatibility, PasswordPolicy, validate_password_inputs,
  config_needs_rehash, hash_password, verify_argon2id, verify_compatible, verify_with_policy,
}

config_needs_rehash_self : (c : PasswordConfig) → config_needs_rehash c c ≡ false
unfolding config_needs_rehash
config_needs_rehash_self c = ground arith

module _ (ops : PasswordOps) where
  -- Verification goes on with the derivation when the lengths are in bounds.
  pub verify_argon2id-parsed :
      (password pepper encoded : Bytes) (c : PasswordConfig) (salt key : Bytes)
      → outside 1 1024 (length password) ≡ false
      → outside 16 1024 (length pepper) ≡ false
      → parse_argon2id_hash ops encoded ≡ some (c, salt, key)
      → verify_argon2id ops password pepper encoded
        ≡ (1, some (bytes_eq (derive_password_key ops password pepper salt c) key, c))
  unfolding verify_argon2id
  verify_argon2id-parsed password pepper encoded c salt key short pepper_fits parsed =
      rw (verify_argon2id, parsed, short, pepper_fits) refl

  abbrev pub AllExpired : List PasswordCompatibility → (ℕ → ℤ) → Type 0
  AllExpired [] clock = Unit
  AllExpired (entry ∷ rest) clock =
      ((n : ℕ) → ltb_ℤ (clock n) entry.accept_until ≡ false) × AllExpired rest clock

  verify_compatible-expired :
      (entries : List PasswordCompatibility) (password encoded : Bytes) (clock : ℕ → ℤ) (n : ℕ)
      → AllExpired entries clock
      → verify_compatible entries password encoded clock n ≡ password_invalid
  unfolding verify_compatible
  verify_compatible-expired [] password encoded clock n all = refl
  verify_compatible-expired (entry ∷ rest) password encoded clock n all =
      rw (verify_compatible, all.0 n)
        (verify_compatible-expired rest password encoded clock (n + 1) all.1)

  pub validate_password_inputs-parts :
      (password pepper : Bytes) (c : PasswordConfig)
      → validate_password_inputs password pepper c ≡ true
      → (outside 1 1024 (length password) ≡ false)
        × (outside 16 1024 (length pepper) ≡ false)
        × (validate_password_config c ≡ true)
  unfolding validate_password_inputs
  validate_password_inputs-parts password pepper c valid =
      (ground (arith, valid), ground (arith, valid), ground (arith, valid))

  -- What a hash that was made is.
  pub hash_password-made :
      (policy : PasswordPolicy) (password salt encoded : Bytes)
      → hash_password ops policy password (some salt) ≡ some encoded
      → (validate_password_inputs password policy.pepper policy.config ≡ true)
        × (encode_argon2id_hash ops policy.config salt
              (derive_password_key ops password policy.pepper salt policy.config)
            ≡ encoded)
  unfolding hash_password
  hash_password-made policy password salt encoded made =
      elim (Bool-cases (validate_password_inputs password policy.pepper policy.config)) [
        | inr bad ↦ absurd (none-some none encoded refl (rw (hash_password, bad) at made))
        | inl valid ↦ (
          valid,
          some-injective
              (encode_argon2id_hash ops policy.config salt
                (derive_password_key ops password policy.pepper salt policy.config))
              encoded (rw (hash_password, valid) at made),
        )
      ]

  -- Given the documented laws of argon2, fmt, strconv and base64 (HashLaws), a password that was hashed
  -- under a policy, with a salt of the configured length, is verified by it as valid, with no need for
  -- a new hash, at every time and at the cost of one derivation. In between, parseArgon2idHash reads
  -- back what encodeArgon2idHash has written.
  pub verify_with_policy-hash_password :
      (policy : PasswordPolicy) (password salt encoded : Bytes) (clock : ℕ → ℤ)
      → HashLaws ops
      → length salt ≡ policy.config.salt_length
      → hash_password ops policy password (some salt) ≡ some encoded
      → verify_with_policy ops policy password encoded clock ≡ (1, password_valid)
  unfolding verify_with_policy
  verify_with_policy-hash_password policy password salt encoded clock laws sized made =
      let (valid, is_encoded) = hash_password-made policy password salt encoded made in
      let (short, pepper_fits, safe) =
        validate_password_inputs-parts password policy.pepper policy.config valid in
      let c = policy.config in
      let key = derive_password_key ops password policy.pepper salt c in
      let key_sized =
        laws.id_key-length (password ++ policy.pepper) salt c.iterations c.memory c.parallelism
          c.key_length in
      let parsed =
        ap (parse_argon2id_hash ops) (sym is_encoded)
        ∙ parse_argon2id_hash-encode_argon2id_hash ops laws c salt key safe sized key_sized in
      let begins =
        subst (λ t. has_prefix t argon2id_prefix ≡ true) is_encoded
          (encode_argon2id_hash-has_prefix ops laws c salt key) in
      let fits =
        subst (λ t. ltb 1024 (length t) ≡ false) is_encoded
          (encode_argon2id_hash-fits ops laws c salt key safe sized key_sized) in
      let derived =
        verify_argon2id-parsed password policy.pepper encoded c salt key short pepper_fits parsed in
      rw
        (
          verify_with_policy,
          short,
          fits,
          begins,
          derived,
          (bytes_eq_iff key key).1 refl,
          config_needs_rehash_self c,
        )
        refl

  -- When every older verifier has passed its deadline, at each reading of the clock, a hash that is
  -- not an Argon2id one is refused, whatever the password.
  pub verify_with_policy-expired :
      (policy : PasswordPolicy) (password encoded : Bytes) (clock : ℕ → ℤ)
      → has_prefix encoded argon2id_prefix ≡ false
      → AllExpired policy.compatibility clock
      → (verify_with_policy ops policy password encoded clock).1 ≡ password_invalid
  unfolding verify_with_policy
  verify_with_policy-expired policy password encoded clock older all =
      elim (Bool-cases (outside 1 1024 (length password) || ltb 1024 (length encoded))) [
        | inl bad ↦ rw (verify_with_policy, bad) refl
        | inr good ↦ elim (Bool-cases (bytes_eq encoded [])) [
          | inl empty ↦ rw (verify_with_policy, good, older, empty) refl
          | inr filled ↦
              rw (verify_with_policy, good, older, filled)
                (verify_compatible-expired policy.compatibility password encoded clock 0 all)
        ]
      ]
