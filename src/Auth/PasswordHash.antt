-- ===== src/Auth/PasswordHash.antt =====
-- auth/password.go and the end of password_policy.go: the PHC text of an Argon2id hash, how it is
-- written and read. argon2, strconv, fmt.Sscanf and encoding/base64 are a record of operations.
pub mod Text
use goplusplus.Prelude.{
  ℕ, ◌%◌, ◌^◌, Bool, not, ◌&&◌, ◌||◌, List, [], ◌∷◌, ◌++◌, Option, none, some, if◌then◌else◌, ltb,
  length,
}
use goplusplus.Prelude.Bytes.{Bytes, bytes_eq, codes}
use goplusplus.Prelude.Split.{parts_on}

pub record PasswordConfig : Type 0 where
  pub memory : ℕ
  pub iterations : ℕ
  pub parallelism : ℕ
  pub salt_length : ℕ
  pub key_length : ℕ

-- argon2.Version; argon2.IDKey (password, salt, time, memory, threads, length); strconv.Itoa, which
-- is also what "%d" writes; fmt.Sscanf (text, "m=%d,t=%d,p=%d") into a uint32, a uint32 and a uint8;
-- and base64.RawStdEncoding, Strict when it decodes. None is an error.
pub record PasswordOps : Type 0 where
  pub version : ℕ
  pub id_key : Bytes → Bytes → ℕ → ℕ → ℕ → ℕ → Bytes
  pub itoa : ℕ → Bytes
  pub scan_parameters : Bytes → Option (ℕ × ℕ × ℕ)
  pub encode_base64 : Bytes → Bytes
  pub decode_base64 : Bytes → Option Bytes

abbrev pub outside : ℕ → ℕ → ℕ → Bool
outside low high n = ltb n low || ltb high n

unfoldable pub validate_password_config : PasswordConfig → Bool
validate_password_config c = not (
    outside 8192 131072 c.memory
    || outside 1 5 c.iterations
    || outside 1 16 c.parallelism
    || outside 16 64 c.salt_length
    || outside 16 64 c.key_length)

abbrev pub argon2id_prefix : Bytes
argon2id_prefix = codes "$argon2id$"

module _ (ops : PasswordOps) where
  abbrev pub derive_password_key : Bytes → Bytes → Bytes → PasswordConfig → Bytes
  derive_password_key password pepper salt c =
      ops.id_key (password ++ pepper) salt c.iterations c.memory c.parallelism c.key_length

  -- "v=%d"
  abbrev pub version_text : Bytes
  version_text = b'v' ∷ b'=' ∷ ops.itoa ops.version

  -- "m=%d,t=%d,p=%d"
  abbrev pub parameters_text : ℕ → ℕ → ℕ → Bytes
  parameters_text memory iterations parallelism =
      codes "m="
      ++ (ops.itoa memory
          ++ (codes ",t=" ++ (ops.itoa iterations ++ (codes ",p=" ++ ops.itoa parallelism))))

  unfoldable pub encode_argon2id_hash : PasswordConfig → Bytes → Bytes → Bytes
  encode_argon2id_hash c salt key =
      let parameters = parameters_text c.memory c.iterations c.parallelism in
      argon2id_prefix
      ++ (version_text
          ++ b'$' ∷ (parameters ++ b'$' ∷ (ops.encode_base64 salt ++ b'$' ∷ ops.encode_base64 key)))

  -- The salt and the key, with the configuration that has their lengths, as uint32.
  unfoldable pub parse_keys : ℕ × ℕ × ℕ → Bytes → Bytes → Option (PasswordConfig × Bytes × Bytes)
  parse_keys (memory, iterations, parallelism) salt key =
      let config : PasswordConfig = record {
        memory = memory;
        iterations = iterations;
        parallelism = parallelism;
        salt_length = length salt % 2 ^ 32;
        key_length = length key % 2 ^ 32;
      } in
      if not (validate_password_config config) then none else some (config, salt, key)

  -- The parts of a text between its dollar signs. Nothing is asked of the first one.
  unfoldable pub parse_parts : List Bytes → Option (PasswordConfig × Bytes × Bytes)
  parse_parts (first ∷ kind ∷ version ∷ parameters ∷ salt_text ∷ key_text ∷ []) =
      if not (bytes_eq kind (codes "argon2id") && bytes_eq version version_text)
      then none
      else elim (ops.scan_parameters parameters) [
        | none ↦ none
        | some (memory, iterations, parallelism) ↦
            if not (bytes_eq parameters (parameters_text memory iterations parallelism))
            then none
            else elim (ops.decode_base64 salt_text) [
              | none ↦ none
              | some salt ↦ elim (ops.decode_base64 key_text) [
                | none ↦ none
                | some key ↦ parse_keys (memory, iterations, parallelism) salt key
              ]
            ]
      ]
  parse_parts parts = none

  unfoldable pub parse_argon2id_hash : Bytes → Option (PasswordConfig × Bytes × Bytes)
  parse_argon2id_hash encoded =
      if bytes_eq encoded [] || ltb 1024 (length encoded)
      then none
      else parse_parts (parts_on b'$' encoded)
