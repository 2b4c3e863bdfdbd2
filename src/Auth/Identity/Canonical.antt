-- ===== src/Auth/Identity/Canonical.antt =====
-- Claims in canonical form stay as they are.
use goplusplus.Prelude.{
  ◌≡◌, ◌≤◌, refl, sym, ap, subst, ◌∙◌, true, false, none, some, String, str_eq, eq_iff, arith,
  Bool-cases, Option-cases, inl, inr,
}
use goplusplus.Prelude.Int.{ℤ, pos, leb_ℤ}
use goplusplus.Auth.Identity.{
  UserClaims, TextOps, IdentityId, canonical_identity_id, subject_or, same_identity,
  canonical_user_claims,
}

-- What strconv and strings document: FormatInt writes a number in decimal digits, in at most 20
-- bytes, TrimPrefix leaves a text without the prefix as it is, and ParseInt reads a number that it
-- can return back from its digits.
pub record TextLaws (ops : TextOps) : Type 0 where
  pub format-filled : (n : ℤ) → str_eq (ops.format_int n) "" ≡ false
  pub format-short : (n : ℤ) → ops.byte_length (ops.format_int n) ≤ 20
  pub format-plain : (n : ℤ) → ops.has_control_or_space (ops.format_int n) ≡ false
  pub trim-format : (n : ℤ) → ops.trim_usr (ops.format_int n) ≡ ops.format_int n
  pub parse-format :
      (digits : String) (n : ℤ)
      → ops.parse_int digits ≡ some n
      → ops.parse_int (ops.format_int n) ≡ some n

module _ (ops : TextOps) (laws : TextLaws ops) where
  -- The digits of a positive number are its identity in canonical form.
  canonical_identity_id-format :
      (digits : String) (n : ℤ)
      → ops.parse_int digits ≡ some n
      → leb_ℤ n (pos 0) ≡ false
      → canonical_identity_id ops (ops.format_int n)
        ≡ some record { text = ops.format_int n; user_id = n; numeric = true }
  unfolding canonical_identity_id
  canonical_identity_id-format digits n parsed positive = ground (
    arith,
    laws.format-filled n,
    laws.format-short n,
    laws.format-plain n,
    laws.trim-format n,
    laws.parse-format digits n parsed,
    positive,
  )

  identity_text-plain :
      (value : String) (i : IdentityId)
      → ops.parse_int (ops.trim_usr value) ≡ none
      → canonical_identity_id ops value ≡ some i
      → i.text ≡ value
  unfolding canonical_identity_id
  identity_text-plain value i absent found = ground (arith, absent, found)

  identity_text-numeric :
      (value : String) (i : IdentityId) (n : ℤ)
      → ops.parse_int (ops.trim_usr value) ≡ some n
      → canonical_identity_id ops value ≡ some i
      → (leb_ℤ n (pos 0) ≡ false)
        × (record { text = ops.format_int n; user_id = n; numeric = true } ≡ i)
  unfolding canonical_identity_id
  identity_text-numeric value i n parsed found = elim (Bool-cases (leb_ℤ n (pos 0))) [
    | inl negative ↦ absurd (ground (arith, parsed, found, negative))
    | inr positive ↦ (positive, ground (arith, parsed, found, positive))
  ]

  -- The canonical text of an identity is that of the same identity.
  canonical_identity_id-text :
      (value : String) (i : IdentityId)
      → canonical_identity_id ops value ≡ some i
      → canonical_identity_id ops i.text ≡ some i
  canonical_identity_id-text value i found =
      elim (Option-cases (ops.parse_int (ops.trim_usr value))) [
        | inl absent ↦
            ap (canonical_identity_id ops) (identity_text-plain value i absent found) ∙ found
        | inr (n, parsed) ↦
            let (positive, is_i) = identity_text-numeric value i n parsed found in
            subst (λ t. canonical_identity_id ops t.text ≡ some t) is_i
              (canonical_identity_id-format (ops.trim_usr value) n parsed positive)
      ]

  same_identity-text : (a b : IdentityId) → same_identity ops a b ≡ true → a.text ≡ b.text
  same_identity-text a b same = ground (arith, same, eq_iff a.text b.text)

  same_identity_self : (a : IdentityId) → same_identity ops a a ≡ true
  same_identity_self a = ground (arith, eq_iff a.text a.text)

  subject_or-same : (text subject : String) → subject ≡ text → subject_or ops subject text ≡ text
  subject_or-same text subject same = elim (Bool-cases (str_eq subject "")) [
    | inl empty ↦ rw (subject_or, empty) refl
    | inr named ↦ rw (subject_or, named) same
  ]

  canonical-known :
      (claims : UserClaims) (i : IdentityId) (subject : String)
      → canonical_identity_id ops i.text ≡ some i
      → subject ≡ i.text
      → canonical_user_claims ops (record claims { id = i.text; subject = subject })
        ≡ some (record claims { id = i.text; subject = subject })
  unfolding canonical_user_claims
  canonical-known claims i subject known same =
      let at_subject =
        ap (canonical_identity_id ops) (subject_or-same i.text subject same) ∙ known in
      rw (canonical_user_claims, known, at_subject, same_identity_self i)
        (ap (λ t. some (record claims { id = i.text; subject = t })) (sym same))

  -- Claims in canonical form are accepted as they are.
  pub canonical_user_claims-canonical :
      (claims verified : UserClaims)
      → canonical_user_claims ops claims ≡ some verified
      → canonical_user_claims ops verified ≡ some verified
  unfolding canonical_user_claims
  canonical_user_claims-canonical claims verified found =
      elim (Option-cases (canonical_identity_id ops claims.id)) [
        | inl absent ↦ absurd (ground (arith, absent, found))
        | inr (i, at_id) ↦
            elim (Option-cases (canonical_identity_id ops (subject_or ops claims.subject i.text))) [
              | inl absent ↦ absurd (ground (arith, at_id, absent, found))
              | inr (s, at_subject) ↦ elim (Bool-cases (same_identity ops s i)) [
                | inr other ↦ absurd (ground (arith, at_id, at_subject, other, found))
                | inl same ↦
                    let made : record claims { id = i.text; subject = s.text } ≡ verified =
                      ground (arith, at_id, at_subject, same, found) in
                    let text = same_identity-text s i same in
                    subst (λ v. canonical_user_claims ops v ≡ some v) made
                      (canonical-known claims i s.text
                        (canonical_identity_id-text claims.id i at_id) text)
              ]
            ]
      ]
