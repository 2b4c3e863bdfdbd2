-- ===== src/Auth/Password/Cost.antt =====
-- What a verification costs, so that its time does not tell whether an account exists.
use goplusplus.Prelude.{
  ℕ, ◌≡◌, refl, sym, ap, subst, ◌∙◌, Bool, true, false, not, ◌&&◌, ◌||◌, [], ◌++◌, Option, none,
  some, if◌then◌else◌, ltb, length, Bool-cases, Option-cases, inl, inr, some-injective, none-some,
}
use goplusplus.Prelude.Int.{ℤ}
use goplusplus.Prelude.Bytes.{Bytes, bytes_eq, has_prefix, strip_prefix, codes}
use goplusplus.Auth.PasswordHash.{
  PasswordConfig, PasswordOps, outside, validate_password_config, argon2id_prefix,
  derive_password_key, parse_argon2id_hash,
}
use goplusplus.Auth.PasswordHash.Text.{HashLaws, parse_argon2id_hash-encode_argon2id_hash}
use goplusplus.Auth.Password.{
  PasswordPolicy, PasswordPolicyConfig, LegacyAnswer, hash_password, verify_argon2id,
  verify_with_policy, verify_missing, compatible_entries, with_legacy, new_password_policy,
}
use goplusplus.Auth.Password.Verify.{
  verify_argon2id-parsed, hash_password-made, validate_password_inputs-parts,
}

abbrev pub is_none {ℓ} : {A : Type ℓ} → Option A → Bool
is_none none = true
is_none (some a) = false

module _ (ops : PasswordOps) (laws : HashLaws ops) where
  -- A policy whose dummy hash costs a derivation.
  record Guarded (policy : PasswordPolicy) : Type 0 where
    pepper_fits : outside 16 1024 (length policy.pepper) ≡ false
    dummy_config : PasswordConfig
    dummy_salt : Bytes
    dummy_key : Bytes
    dummy_reads :
        parse_argon2id_hash ops policy.dummy_hash ≡ some (dummy_config, dummy_salt, dummy_key)

  hash_password-Guarded :
      (policy : PasswordPolicy) (guard salt dummy : Bytes)
      → length salt ≡ policy.config.salt_length
      → hash_password ops policy guard (some salt) ≡ some dummy
      → Guarded (record policy { dummy_hash = dummy })
  hash_password-Guarded policy guard salt dummy sized made =
      let (valid, is_dummy) = hash_password-made ops policy guard salt dummy made in
      let (short, fits, safe) =
        validate_password_inputs-parts ops guard policy.pepper policy.config valid in
      let key = derive_password_key ops guard policy.pepper salt policy.config in
      record {
        pepper_fits = fits;
        dummy_config = policy.config;
        dummy_salt = salt;
        dummy_key = key;
        dummy_reads =
            ap (parse_argon2id_hash ops) (sym is_dummy)
            ∙ parse_argon2id_hash-encode_argon2id_hash ops laws policy.config salt key safe sized (
                laws.id_key-length (guard ++ policy.pepper) salt policy.config.iterations
                  policy.config.memory policy.config.parallelism policy.config.key_length);
      }

  new_password_policy-Guarded :
      (c : PasswordPolicyConfig) (legacy : Bytes → Bytes → Bytes → LegacyAnswer) (salt : Bytes)
      (policy : PasswordPolicy)
      → length salt ≡ c.argon2id.salt_length
      → new_password_policy ops c legacy (some salt) ≡ some policy
      → Guarded policy
  unfolding new_password_policy
  new_password_policy-Guarded c legacy salt policy sized made =
      elim (Bool-cases
        (outside 16 1024 (length c.policy_pepper) || not (validate_password_config c.argon2id))) [
          | inl bad ↦ absurd (none-some none policy refl (rw (new_password_policy, bad) at made))
          | inr good ↦
              elim (Option-cases
                (compatible_entries (with_legacy c.legacy_v1 (legacy c.policy_pepper) c.older))) [
                  | inl missing ↦
                      absurd (
                        none-some none policy refl
                          (rw (new_password_policy, good, missing) at made))
                  | inr (entries, present) ↦
                      let base : PasswordPolicy = record {
                        pepper = c.policy_pepper;
                        config = c.argon2id;
                        dummy_hash = [];
                        compatibility = entries;
                      } in
                      let guard = codes "goplusplus-password-timing-guard" in
                      elim (Option-cases (hash_password ops base guard (some salt))) [
                        | inl failed ↦ absurd (
                            none-some none policy refl
                              (rw (new_password_policy, good, present, failed) at made))
                        | inr (dummy, hashed) ↦
                            subst Guarded
                              (some-injective (record base { dummy_hash = dummy }) policy
                                (rw (new_password_policy, good, present, hashed) at made))
                              (hash_password-Guarded base guard salt dummy sized hashed)
                      ]
                ]
        ]

  verify_argon2id-cost :
      (password pepper encoded : Bytes)
      → outside 1 1024 (length password) ≡ false
      → outside 16 1024 (length pepper) ≡ false
      → (verify_argon2id ops password pepper encoded).0
        ≡ (if is_none (parse_argon2id_hash ops encoded) then 0 else 1)
  unfolding verify_argon2id
  verify_argon2id-cost password pepper encoded short fits =
      elim (Option-cases (parse_argon2id_hash ops encoded)) [
        | inl bad ↦ rw (verify_argon2id, bad) refl
        | inr (parsed, good) ↦ rw (verify_argon2id, good, short, fits) refl
      ]

  -- Under a policy that NewPasswordPolicy made with a salt of the configured length, and given the
  -- documented laws of argon2, fmt, strconv and base64 (HashLaws), a password and a hash whose
  -- lengths are in bounds cost exactly one derivation, also when the account is missing or the hash is of an older
  -- format. The exception is a text that begins as an Argon2id hash and cannot be read as one, which
  -- costs none.
  pub verify_with_policy-cost :
      (c : PasswordPolicyConfig) (legacy : Bytes → Bytes → Bytes → LegacyAnswer) (salt : Bytes)
      (policy : PasswordPolicy) (password encoded : Bytes) (clock : ℕ → ℤ)
      → length salt ≡ c.argon2id.salt_length
      → new_password_policy ops c legacy (some salt) ≡ some policy
      → outside 1 1024 (length password) ≡ false
      → ltb 1024 (length encoded) ≡ false
      → ((verify_with_policy ops policy password encoded clock).0 ≡ (
          if has_prefix encoded argon2id_prefix && is_none (parse_argon2id_hash ops encoded)
          then 0
          else 1))
        × ((verify_missing ops policy password clock).0 ≡ 1)
  unfolding verify_with_policy has_prefix strip_prefix bytes_eq
  verify_with_policy-cost c legacy salt policy password encoded clock sized made short fits =
      let g = new_password_policy-Guarded c legacy salt policy sized made in
      let dummy =
        verify_argon2id-parsed ops password policy.pepper policy.dummy_hash g.dummy_config
          g.dummy_salt g.dummy_key short g.pepper_fits g.dummy_reads in
      let cost = verify_argon2id-cost password policy.pepper encoded short g.pepper_fits in
      (
        elim (Bool-cases (has_prefix encoded argon2id_prefix)) [
          | inl current ↦ rw (verify_with_policy, short, fits, current, cost) refl
          | inr older ↦ elim (Bool-cases (bytes_eq encoded [])) [
            | inl empty ↦ rw (verify_with_policy, short, fits, older, empty, dummy) refl
            | inr filled ↦ rw (verify_with_policy, short, fits, older, filled, dummy) refl
          ]
        ],
        rw (verify_missing, verify_with_policy, short, dummy) refl,
      )
