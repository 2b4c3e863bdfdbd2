-- ===== src/Auth/Password/Tests.antt =====
-- A policy over a derivation and a text of hashes that are easy to follow.
use goplusplus.Prelude.{
  ℕ, zero, suc, ◌+◌, ◌-◌, ◌*◌, ◌/◌, ap, ◌∙◌, ◌≡◌, refl, [], ◌∷◌, ◌++◌, Option, none, some,
  if◌then◌else◌, arith, length, length-append, length-replicate, replicate, ◌&&◌,
}
use goplusplus.Prelude.Int.{pos}
use goplusplus.Prelude.Bytes.{Bytes, bytes_eq, has_prefix, strip_prefix, take, take-append, codes}
use goplusplus.Auth.PasswordHash.{
  parameters_text, parse_keys, parse_parts, PasswordConfig, PasswordOps, validate_password_config,
  argon2id_prefix, derive_password_key, encode_argon2id_hash, parse_argon2id_hash,
}
use goplusplus.Prelude.Split.{split_on, IsPart, IsPart-append}
use goplusplus.Auth.PasswordHash.Text.{HashLaws}
use goplusplus.Auth.Password.{
  PasswordPolicy, PasswordPolicyConfig, LegacyAnswer, answered, not_recognized, password_valid,
  password_invalid, password_valid_needs_rehash, validate_password_inputs, config_needs_rehash,
  hash_password, verify_argon2id, verify_compatible, verify_with_policy, verify_missing,
  compatible_entries, new_password_policy,
}
use goplusplus.Auth.Password.Verify.{verify_with_policy-hash_password, verify_with_policy-expired}
use goplusplus.Auth.Password.Cost.{is_none, verify_with_policy-cost}

program : Unit {0}
unfolding bytes_eq has_prefix strip_prefix split_on encode_argon2id_hash parse_argon2id_hash
    parse_keys parse_parts validate_password_config validate_password_inputs config_needs_rehash
    hash_password verify_argon2id verify_compatible verify_with_policy compatible_entries
    new_password_policy
program = tt

-- A number is written as one byte, 100 above it.
abbrev scan : Bytes → Option (ℕ × ℕ × ℕ)
scan (_ ∷ _ ∷ m ∷ _ ∷ _ ∷ _ ∷ t ∷ _ ∷ _ ∷ _ ∷ p ∷ []) = some (m - 100, t - 100, p - 100)
scan other = none

abbrev raise : Bytes → Bytes
raise [] = []
raise (c ∷ s) = (c + 100) ∷ raise s

abbrev lower : Bytes → Bytes
lower [] = []
lower (c ∷ s) = (c - 100) ∷ lower s

-- A text is followed by as many zeros as base64 would make it longer.
abbrev padding : Bytes → ℕ
padding s = (length s * 8 + 5) / 6 - length s

abbrev ops : PasswordOps
ops = record {
  version = 19;
  id_key = λ password salt t m p n. replicate n (length password);
  itoa = λ n. (n + 100) ∷ [];
  scan_parameters = scan;
  encode_base64 = λ s. raise s ++ replicate (padding s) 0;
  decode_base64 = λ s. some (lower (take (length s * 3 / 4) s));
}

length-raise : (s : Bytes) → length (raise s) ≡ length s
length-raise [] = refl
length-raise (c ∷ s) = omega (arith, length-raise s)

lower-raise : (s : Bytes) → lower (raise s) ≡ s
lower-raise [] = refl
lower-raise (c ∷ s) = ground (arith, lower-raise s)

zeros-IsPart : (n : ℕ) → IsPart b'$' (replicate n 0)
zeros-IsPart zero = tt
zeros-IsPart (suc n) = (refl, zeros-IsPart n)

raise-IsPart : (s : Bytes) → IsPart b'$' (raise s)
raise-IsPart [] = tt
raise-IsPart (c ∷ s) = (ground arith, raise-IsPart s)

encoded_length : (s : Bytes) → length (ops.encode_base64 s) ≡ (length s * 8 + 5) / 6
encoded_length s = omega (
  arith,
  length-append (raise s) (replicate (padding s) 0),
  length-raise s,
  length-replicate {A = ℕ} (padding s) 0,
)

decoded : (s : Bytes) → ops.decode_base64 (ops.encode_base64 s) ≡ some s
decoded s =
    let kept : length (ops.encode_base64 s) * 3 / 4 ≡ length (raise s) =
      omega (arith, encoded_length s, length-raise s) in
    ap some (
      ap (λ n. lower (take n (ops.encode_base64 s))) kept
      ∙ ap lower (take-append (raise s) (replicate (padding s) 0))
      ∙ lower-raise s)

scanned : (m t p : ℕ) → scan (parameters_text ops m t p) ≡ some (m, t, p)
scanned m t p = ground arith

laws : HashLaws ops
laws = record {
  version-small = omega arith;
  itoa-IsPart = λ n. (ground arith, tt);
  itoa-short = λ n small. omega arith;
  scan-print = λ m t p m_small t_small p_small. scanned m t p;
  encode-IsPart = λ s.
      IsPart-append b'$' (raise s) (replicate (padding s) 0) (raise-IsPart s)
        (zeros-IsPart (padding s));
  encode-length = encoded_length;
  decode-encode = decoded;
  id_key-length = λ password salt t m p n. length-replicate n (length password);
}

abbrev cost : PasswordConfig
cost = record { memory = 65536; iterations = 3; parallelism = 4; salt_length = 16; key_length = 32 }

abbrev sixteen : Bytes
sixteen = replicate 16 7

abbrev other_salt : Bytes
other_salt = replicate 16 9

abbrev pepper_bytes : Bytes
pepper_bytes = codes "0123456789abcdef"

abbrev older_format : Bytes → Bytes → LegacyAnswer
older_format password encoded = answered (bytes_eq password encoded)

abbrev policy_config : PasswordPolicyConfig
policy_config = record {
  policy_pepper = pepper_bytes;
  argon2id = cost;
  legacy_v1 = none;
  older = (some older_format, some (pos 100)) ∷ [];
}

abbrev legacy : Bytes → Bytes → Bytes → LegacyAnswer
legacy pepper password encoded = not_recognized

abbrev policy : PasswordPolicy
policy = record {
  pepper = pepper_bytes;
  config = cost;
  dummy_hash = encode_argon2id_hash ops cost sixteen (
      derive_password_key ops (codes "goplusplus-password-timing-guard") pepper_bytes sixteen cost);
  compatibility = record { verify_password = older_format; accept_until = pos 100 } ∷ [];
}

policy_made : new_password_policy ops policy_config legacy (some sixteen) ≡ some policy
unfolding program
policy_made = refl

abbrev stored : Bytes
stored =
    encode_argon2id_hash ops cost other_salt
      (derive_password_key ops (codes "secret") pepper_bytes other_salt cost)

older_hash :
    verify_with_policy ops policy (codes "old") (codes "old") (λ n. pos 5)
    ≡ (1, password_valid_needs_rehash)
unfolding program
older_hash = refl

wrong_password :
    verify_with_policy ops policy (codes "guess!!") stored (λ n. pos 5) ≡ (1, password_invalid)
unfolding program
wrong_password = refl

-- A text that only begins as an Argon2id hash costs no derivation.
malformed_hash :
    verify_with_policy ops policy (codes "secret") (codes "$argon2id$") (λ n. pos 5)
    ≡ (0, password_invalid)
unfolding program
malformed_hash = refl

verify_with_policy-hash_password_example :
    verify_with_policy ops policy (codes "secret") stored (λ n. pos 5) ≡ (1, password_valid)
unfolding program
verify_with_policy-hash_password_example =
    verify_with_policy-hash_password ops policy (codes "secret") other_salt stored (λ n. pos 5) laws
      refl refl

verify_with_policy-expired_example :
    (verify_with_policy ops policy (codes "old") (codes "old") (λ n. pos 200)).1 ≡ password_invalid
unfolding program
verify_with_policy-expired_example =
    verify_with_policy-expired ops policy (codes "old") (codes "old") (λ n. pos 200) refl
      ((λ n. refl), tt)

verify_with_policy-cost_example :
    ((verify_with_policy ops policy (codes "secret") stored (λ n. pos 5)).0 ≡ (
      if has_prefix stored argon2id_prefix && is_none (parse_argon2id_hash ops stored)
      then 0
      else 1))
    × ((verify_missing ops policy (codes "secret") (λ n. pos 5)).0 ≡ 1)
unfolding program
verify_with_policy-cost_example =
    verify_with_policy-cost ops laws policy_config legacy sixteen policy (codes "secret") stored
      (λ n. pos 5) refl policy_made refl refl
