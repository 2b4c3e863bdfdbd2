-- ===== src/Auth/PasswordHash/Text.antt =====
-- The text of a hash is read back as what it was written from.
use goplusplus.Prelude.{
  ℕ, ◌≡◌, refl, ap, ◌∙◌, ◌+◌, ◌*◌, ◌/◌, ◌%◌, ◌^◌, ◌≤◌, ◌<◌, true, false, not, List, [], ◌∷◌, ◌++◌,
  none, some, if◌then◌else◌, ltb, arith, length, length-append,
}
use goplusplus.Prelude.Bytes.{Bytes, bytes_eq, bytes_eq_iff, has_prefix, strip_prefix, codes}
use goplusplus.Prelude.Split.{parts_on, IsPart, IsPart-append, parts_on-join_on}
use goplusplus.Auth.PasswordHash.{
  PasswordConfig, PasswordOps, validate_password_config, argon2id_prefix, version_text,
  parameters_text, encode_argon2id_hash, parse_keys, parse_parts, parse_argon2id_hash,
}

-- What the packages document: a decimal number and base64 have no dollar sign, Sscanf reads what
-- Sprintf has written, base64 decodes what it has encoded and has a known length, a uint32 has at most
-- ten digits, the version is one, and Argon2 gives a key of the length that is asked for.
pub record HashLaws (ops : PasswordOps) : Type 0 where
  pub version-small : ops.version < 2 ^ 32
  pub itoa-IsPart : (n : ℕ) → IsPart b'$' (ops.itoa n)
  pub itoa-short : (n : ℕ) → n < 2 ^ 32 → length (ops.itoa n) ≤ 10
  pub scan-print :
      (m t p : ℕ)
      → m < 2 ^ 32
      → t < 2 ^ 32
      → p < 2 ^ 8
      → ops.scan_parameters (parameters_text ops m t p) ≡ some (m, t, p)
  pub encode-IsPart : (s : Bytes) → IsPart b'$' (ops.encode_base64 s)
  pub encode-length : (s : Bytes) → length (ops.encode_base64 s) ≡ (length s * 8 + 5) / 6
  pub decode-encode : (s : Bytes) → ops.decode_base64 (ops.encode_base64 s) ≡ some s
  pub id_key-length :
      (password salt : Bytes) (t m p n : ℕ) → length (ops.id_key password salt t m p n) ≡ n

pub validate_password_config-bounds :
    (c : PasswordConfig)
    → validate_password_config c ≡ true
    → (c.memory < 2 ^ 32)
      × (c.iterations < 2 ^ 32)
      × (c.parallelism < 2 ^ 8)
      × (c.salt_length ≤ 64)
      × (c.key_length ≤ 64)
unfolding validate_password_config
validate_password_config-bounds c safe = (
  ground (arith, safe),
  ground (arith, safe),
  ground (arith, safe),
  ground (arith, safe),
  ground (arith, safe),
)

module _ (ops : PasswordOps) (laws : HashLaws ops) where
  abbrev hash_parts : PasswordConfig → Bytes → Bytes → List Bytes
  hash_parts c salt key =
      codes "argon2id"
      ∷ version_text ops
      ∷ parameters_text ops c.memory c.iterations c.parallelism
      ∷ ops.encode_base64 salt
      ∷ ops.encode_base64 key
      ∷ []

  parameters_text-IsPart : (m t p : ℕ) → IsPart b'$' (parameters_text ops m t p)
  parameters_text-IsPart m t p =
      let last = codes ",p=" ++ ops.itoa p in
      let rest = codes ",t=" ++ (ops.itoa t ++ last) in
      let last-IsPart : IsPart b'$' last = (refl, (refl, (refl, laws.itoa-IsPart p))) in
      let tail = IsPart-append b'$' (ops.itoa t) last (laws.itoa-IsPart t) last-IsPart in
      let rest-IsPart : IsPart b'$' rest = (refl, (refl, (refl, tail))) in
      (refl, (refl, IsPart-append b'$' (ops.itoa m) rest (laws.itoa-IsPart m) rest-IsPart))

  encode_argon2id_hash-parts :
      (c : PasswordConfig) (salt key : Bytes)
      → parts_on b'$' (encode_argon2id_hash ops c salt key) ≡ [] ∷ hash_parts c salt key
  unfolding encode_argon2id_hash
  encode_argon2id_hash-parts c salt key =
      let kind : IsPart b'$' (codes "argon2id") =
        (refl, (refl, (refl, (refl, (refl, (refl, (refl, (refl, tt)))))))) in
      let version : IsPart b'$' (version_text ops) = (refl, (refl, laws.itoa-IsPart ops.version)) in
      let parameters = parameters_text-IsPart c.memory c.iterations c.parallelism in
      parts_on-join_on b'$' [] (hash_parts c salt key) (
        tt,
        (kind, (version, (parameters, (laws.encode-IsPart salt, (laws.encode-IsPart key, tt))))),
      )

  parameters_text-short :
      (c : PasswordConfig)
      → validate_password_config c ≡ true
      → length (parameters_text ops c.memory c.iterations c.parallelism) ≤ 38
  parameters_text-short c safe =
      let (m, t, p, _, _) = validate_password_config-bounds c safe in
      let m_short = laws.itoa-short c.memory m in
      let t_short = laws.itoa-short c.iterations t in
      let p_short = laws.itoa-short c.parallelism (omega (arith, p)) in
      let last = codes ",p=" ++ ops.itoa c.parallelism in
      let rest = codes ",t=" ++ (ops.itoa c.iterations ++ last) in
      omega (
        arith,
        length-append (ops.itoa c.memory) rest,
        length-append (ops.itoa c.iterations) last,
        m_short,
        t_short,
        p_short,
      )

  pub encode_argon2id_hash-fits :
      (c : PasswordConfig) (salt key : Bytes)
      → validate_password_config c ≡ true
      → length salt ≡ c.salt_length
      → length key ≡ c.key_length
      → ltb 1024 (length (encode_argon2id_hash ops c salt key)) ≡ false
  unfolding encode_argon2id_hash
  encode_argon2id_hash-fits c salt key safe sized key_sized =
      let salt_text = ops.encode_base64 salt in
      let key_text = ops.encode_base64 key in
      let keys = salt_text ++ b'$' ∷ key_text in
      let parameters = parameters_text ops c.memory c.iterations c.parallelism in
      let bounds = validate_password_config-bounds c safe in
      ground (
        arith,
        length-append (ops.itoa ops.version) (b'$' ∷ (parameters ++ b'$' ∷ keys)),
        length-append parameters (b'$' ∷ keys),
        length-append salt_text (b'$' ∷ key_text),
        laws.itoa-short ops.version laws.version-small,
        parameters_text-short c safe,
        laws.encode-length salt,
        laws.encode-length key,
        sized,
        key_sized,
        bounds.3,
        bounds.4,
      )

  pub encode_argon2id_hash-has_prefix :
      (c : PasswordConfig) (salt key : Bytes)
      → has_prefix (encode_argon2id_hash ops c salt key) argon2id_prefix ≡ true
  unfolding encode_argon2id_hash has_prefix strip_prefix
  encode_argon2id_hash-has_prefix c salt key = refl

  encode_argon2id_hash-filled :
      (c : PasswordConfig) (salt key : Bytes)
      → bytes_eq (encode_argon2id_hash ops c salt key) [] ≡ false
  unfolding encode_argon2id_hash bytes_eq
  encode_argon2id_hash-filled c salt key = refl

  parse_keys_sized :
      (c : PasswordConfig) (salt key : Bytes)
      → validate_password_config c ≡ true
      → length salt ≡ c.salt_length
      → length key ≡ c.key_length
      → parse_keys ops (c.memory, c.iterations, c.parallelism) salt key ≡ some (c, salt, key)
  unfolding parse_keys
  parse_keys_sized c salt key safe sized key_sized =
      let (_, _, _, salt_small, key_small) = validate_password_config-bounds c safe in
      let same : record c { salt_length = length salt % 2 ^ 32; key_length = length key % 2 ^ 32 }
          ≡ c =
        ground (arith, sized, key_sized, salt_small, key_small) in
      ap
        (λ (k : PasswordConfig).
          if not (validate_password_config k) then none else some (k, salt, key))
        same
      ∙ rw safe refl

  parse_parts-hash_parts :
      (c : PasswordConfig) (salt key : Bytes)
      → validate_password_config c ≡ true
      → length salt ≡ c.salt_length
      → length key ≡ c.key_length
      → parse_parts ops ([] ∷ hash_parts c salt key) ≡ some (c, salt, key)
  unfolding parse_parts
  parse_parts-hash_parts c salt key safe sized key_sized =
      let (m, t, p, _, _) = validate_password_config-bounds c safe in
      let parameters = parameters_text ops c.memory c.iterations c.parallelism in
      let version = version_text ops in
      rw
        (
          parse_parts,
          (bytes_eq_iff (codes "argon2id") (codes "argon2id")).1 refl,
          (bytes_eq_iff version version).1 refl,
          laws.scan-print c.memory c.iterations c.parallelism m t p,
          (bytes_eq_iff parameters parameters).1 refl,
          laws.decode-encode salt,
          laws.decode-encode key,
        )
        (parse_keys_sized c salt key safe sized key_sized)

  -- parseArgon2idHash reads what encodeArgon2idHash has written of a safe configuration.
  pub parse_argon2id_hash-encode_argon2id_hash :
      (c : PasswordConfig) (salt key : Bytes)
      → validate_password_config c ≡ true
      → length salt ≡ c.salt_length
      → length key ≡ c.key_length
      → parse_argon2id_hash ops (encode_argon2id_hash ops c salt key) ≡ some (c, salt, key)
  unfolding parse_argon2id_hash
  parse_argon2id_hash-encode_argon2id_hash c salt key safe sized key_sized =
      rw
        (
          parse_argon2id_hash,
          encode_argon2id_hash-filled c salt key,
          encode_argon2id_hash-fits c salt key safe sized key_sized,
        )
        (ap (parse_parts ops) (encode_argon2id_hash-parts c salt key)
          ∙ parse_parts-hash_parts c salt key safe sized key_sized)
