-- ===== src/Auth/Identity.antt =====
-- auth/identity.go: the claims of a user in canonical form. The functions of strconv, strings and
-- unicode that it calls on an identifier are a record of operations.
pub mod Canonical
use goplusplus.Prelude.{
  ℕ, Bool, true, false, not, ◌&&◌, ◌||◌, List, Option, none, some, if◌then◌else◌, ltb, String,
  str_eq,
}
use goplusplus.Prelude.Int.{ℤ, pos, leb_ℤ}
use goplusplus.Prelude.Map.{Map}

pub record UserClaims : Type 0 where
  pub id : String
  pub subject : String
  pub email : String
  pub roles : List String
  pub attributes : Map String
  pub tenant_id : String

-- len, whether a character is a control character or a space, TrimPrefix (value, "usr_"), ParseInt
-- and FormatInt in base 10
pub record TextOps : Type 0 where
  pub byte_length : String → ℕ
  pub has_control_or_space : String → Bool
  pub trim_usr : String → String
  pub parse_int : String → Option ℤ
  pub format_int : ℤ → String

-- An identity: its text, its number, and whether it has one.
pub record IdentityId : Type 0 where
  pub text : String
  pub user_id : ℤ
  pub numeric : Bool

abbrev pub int_eq : ℤ → ℤ → Bool
int_eq a b = leb_ℤ a b && leb_ℤ b a

abbrev pub bool_eq : Bool → Bool → Bool
bool_eq true b = b
bool_eq false b = not b

abbrev pub clone_user_claims : UserClaims → UserClaims
clone_user_claims source = record {
  id = source.id;
  subject = source.subject;
  email = source.email;
  roles = source.roles;
  attributes = source.attributes;
  tenant_id = source.tenant_id;
}

module _ (ops : TextOps) where
  unfoldable pub canonical_identity_id : String → Option IdentityId
  canonical_identity_id value =
      if str_eq value "" || ltb 256 (ops.byte_length value)
      then none
      else if ops.has_control_or_space value
      then none
      else elim (ops.parse_int (ops.trim_usr value)) [
        | some user_id ↦
            if leb_ℤ user_id (pos 0)
            then none
            else some record { text = ops.format_int user_id; user_id = user_id; numeric = true }
        | none ↦ some record { text = value; user_id = pos 0; numeric = false }
      ]

  abbrev pub subject_or : String → String → String
  subject_or subject id = if str_eq subject "" then id else subject

  abbrev pub same_identity : IdentityId → IdentityId → Bool
  same_identity a b =
      str_eq a.text b.text && bool_eq a.numeric b.numeric && int_eq a.user_id b.user_id

  unfoldable pub canonical_user_claims : UserClaims → Option UserClaims
  canonical_user_claims claims = elim (canonical_identity_id claims.id) [
    | none ↦ none
    | some identity ↦ elim (canonical_identity_id (subject_or claims.subject identity.text)) [
      | none ↦ none
      | some subject ↦
          if same_identity subject identity
          then some (record claims { id = identity.text; subject = subject.text })
          else none
    ]
  ]
