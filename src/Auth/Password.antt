-- ===== src/Auth/Password.antt =====
-- auth/password_policy.go: hashing and verification of passwords under a policy. A verification also
-- gives the number of derivations that it made, which is what its time depends on.
pub mod Verify
pub mod Cost
mod Tests
use goplusplus.Prelude.{
  ℕ, ◌+◌, Bool, true, false, not, ◌&&◌, ◌||◌, List, [], ◌∷◌, ◌++◌, Option, none, some,
  if◌then◌else◌, ltb, ◌==◌, length, String,
}
use goplusplus.Prelude.Int.{ℤ, ltb_ℤ}
use goplusplus.Prelude.Bytes.{Bytes, bytes_eq, has_prefix, codes}
use goplusplus.Auth.PasswordHash.{
  PasswordConfig, PasswordOps, outside, validate_password_config, argon2id_prefix,
  derive_password_key, encode_argon2id_hash, parse_argon2id_hash,
}

pub data PasswordVerification : Type 0 where
  password_invalid password_valid password_valid_needs_rehash : PasswordVerification

-- What a verifier of an older format says: an answer, that the format is not its own, or an error.
pub data LegacyAnswer : Type 0 where
  answered : Bool → LegacyAnswer
  not_recognized legacy_failed : LegacyAnswer

pub record PasswordCompatibility : Type 0 where
  pub verify_password : Bytes → Bytes → LegacyAnswer
  pub accept_until : ℤ

pub record PasswordPolicy : Type 0 where
  pub pepper : Bytes
  pub config : PasswordConfig
  pub dummy_hash : Bytes
  pub compatibility : List PasswordCompatibility

unfoldable pub validate_password_inputs : Bytes → Bytes → PasswordConfig → Bool
validate_password_inputs password pepper config =
    not (outside 1 1024 (length password))
    && not (outside 16 1024 (length pepper))
    && validate_password_config config

unfoldable pub config_needs_rehash : PasswordConfig → PasswordConfig → Bool
config_needs_rehash actual desired =
    not (actual.memory == desired.memory)
    || not (actual.iterations == desired.iterations)
    || not (actual.parallelism == desired.parallelism)
    || not (actual.salt_length == desired.salt_length)
    || not (actual.key_length == desired.key_length)

module _ (ops : PasswordOps) where
  -- The salt is what crypto/rand gives, none where reading it fails.
  unfoldable pub hash_password : PasswordPolicy → Bytes → Option Bytes → Option Bytes
  hash_password policy password salt =
      if not (validate_password_inputs password policy.pepper policy.config)
      then none
      else elim salt [
        | none ↦ none
        | some s ↦ some (
            encode_argon2id_hash ops policy.config s
              (derive_password_key ops password policy.pepper s policy.config))
      ]

  -- The derivations, and the configuration of the hash with whether the password fits it.
  unfoldable pub verify_argon2id : Bytes → Bytes → Bytes → ℕ × Option (Bool × PasswordConfig)
  verify_argon2id password pepper encoded = elim (parse_argon2id_hash ops encoded) [
    | none ↦ (0, none)
    | some parsed ↦
        let config = parsed.0 in
        if outside 1 1024 (length password) || outside 16 1024 (length pepper) then (0, none) else (
          1,
          some
              (bytes_eq (derive_password_key ops password pepper parsed.1 config) parsed.2, config),
        )
  ]

  abbrev pub current_result : PasswordPolicy → Option (Bool × PasswordConfig) → PasswordVerification
  current_result policy none = password_invalid
  current_result policy (some (false, config)) = password_invalid
  current_result policy (some (true, config)) =
      if config_needs_rehash config policy.config
      then password_valid_needs_rehash
      else password_valid

-- The loop over the verifiers of older formats. Each reads the clock, in this order.
unfoldable pub verify_compatible :
    List PasswordCompatibility → Bytes → Bytes → (clock : ℕ → ℤ) → ℕ → PasswordVerification
verify_compatible [] password encoded clock n = password_invalid
verify_compatible (entry ∷ rest) password encoded clock n =
    let later = verify_compatible rest password encoded clock (n + 1) in
    if not (ltb_ℤ (clock n) entry.accept_until)
    then later
    else elim (entry.verify_password password encoded) [
      | answered true ↦ password_valid_needs_rehash
      | answered false ↦ password_invalid
      | not_recognized ↦ later
      | legacy_failed ↦ password_invalid
    ]

module _ (ops : PasswordOps) where
  -- The derivations made, and the result.
  unfoldable pub verify_with_policy :
      PasswordPolicy → Bytes → Bytes → (clock : ℕ → ℤ) → ℕ × PasswordVerification
  verify_with_policy policy password encoded clock =
      let present = verify_argon2id ops password policy.pepper encoded in
      let dummy = verify_argon2id ops password policy.pepper policy.dummy_hash in
      if outside 1 1024 (length password) || ltb 1024 (length encoded)
      then (0, password_invalid)
      else if has_prefix encoded argon2id_prefix
      then (present.0, current_result ops policy present.1)
      else if bytes_eq encoded []
      then (dummy.0, password_invalid)
      else (dummy.0, verify_compatible policy.compatibility password encoded clock 0)

  abbrev pub verify_missing : PasswordPolicy → Bytes → (clock : ℕ → ℤ) → ℕ × PasswordVerification
  verify_missing policy password clock = verify_with_policy policy password [] clock

-- A deadline is none where the time is zero, a verifier where it is nil.
pub record PasswordPolicyConfig : Type 0 where
  pub policy_pepper : Bytes
  pub argon2id : PasswordConfig
  pub legacy_v1 : Option (Option ℤ)
  pub older : List (Option (Bytes → Bytes → LegacyAnswer) × Option ℤ)

-- The entries of the configuration, if each has a verifier and a deadline.
unfoldable pub compatible_entries :
    List (Option (Bytes → Bytes → LegacyAnswer) × Option ℤ) → Option (List PasswordCompatibility)
compatible_entries [] = some []
compatible_entries ((some verifier, some deadline) ∷ entries) = elim (compatible_entries entries) [
  | none ↦ none
  | some rest ↦ some (record { verify_password = verifier; accept_until = deadline } ∷ rest)
]
compatible_entries ((none, deadline) ∷ entries) = none
compatible_entries ((some verifier, none) ∷ entries) = none

-- The verifier of the hashes before v1.11, an HMAC under the pepper, comes first.
abbrev pub with_legacy :
    Option (Option ℤ)
    → (Bytes → Bytes → LegacyAnswer)
    → List (Option (Bytes → Bytes → LegacyAnswer) × Option ℤ)
    → List (Option (Bytes → Bytes → LegacyAnswer) × Option ℤ)
with_legacy none verifier older = older
with_legacy (some deadline) verifier older = (some verifier, deadline) ∷ older

module _ (ops : PasswordOps) where
  unfoldable pub new_password_policy :
      PasswordPolicyConfig
      → (legacy_verifier : Bytes → Bytes → Bytes → LegacyAnswer) → (salt : Option Bytes)
      → Option PasswordPolicy
  new_password_policy c legacy_verifier salt =
      if outside 16 1024 (length c.policy_pepper) || not (validate_password_config c.argon2id)
      then none
      else elim (compatible_entries
          (with_legacy c.legacy_v1 (legacy_verifier c.policy_pepper) c.older)) [
            | none ↦ none
            | some entries ↦
                let policy : PasswordPolicy = record {
                  pepper = c.policy_pepper;
                  config = c.argon2id;
                  dummy_hash = [];
                  compatibility = entries;
                } in
                elim (hash_password ops policy (codes "goplusplus-password-timing-guard") salt) [
                  | none ↦ none
                  | some dummy ↦ some (record policy { dummy_hash = dummy })
                ]
          ]
