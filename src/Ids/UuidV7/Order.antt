-- ===== src/Ids/UuidV7/Order.antt =====
-- The order of UUIDs as byte strings.
use goplusplus.Prelude.{
  ℕ, zero, suc, ◌≡◌, refl, subst, ◌+◌, ◌*◌, ◌/◌, ◌%◌, ◌^◌, ◌<◌, ◌⊎◌, inl, inr, true, List, [], ◌∷◌,
  some, leb, ltb, arith, length, length-append, Bool-cases, Option-cases,
}
use goplusplus.Ids.Snowflake.{wait}
use goplusplus.Ids.Snowflake.Order.{wait-later}
use goplusplus.Ids.Ulid.Order.{lex_lt, lex_lt-append, lex_lt-append_left}
use goplusplus.Ids.UuidV7.{UuidState, advance, bytes, layout, new_uuid_v7}

abbrev byte_capacity : ℕ → ℕ
byte_capacity zero = 1
byte_capacity (suc n) = 256 * byte_capacity n

length-bytes : (n value : ℕ) → length (bytes n value) ≡ n
unfolding bytes
length-bytes zero value = refl
length-bytes (suc n) value =
    omega (
      arith,
      length-append (bytes n (value / 256)) (value % 256 ∷ []),
      length-bytes n (value / 256),
    )

bytes-lt : (n a b : ℕ) → a < b → b < byte_capacity n → lex_lt (bytes n a) (bytes n b) ≡ true
unfolding bytes
bytes-lt zero a b less below = absurd (omega arith)
bytes-lt (suc n) a b less below = elim (Bool-cases (ltb (a / 256) (b / 256))) [
  | inl higher ↦
      lex_lt-append (bytes n (a / 256)) (bytes n (b / 256)) (a % 256 ∷ []) (b % 256 ∷ [])
        (omega (arith, length-bytes n (a / 256), length-bytes n (b / 256)))
        (bytes-lt n (a / 256) (b / 256) (ground arith) (omega arith))
  | inr not_higher ↦
      let same : a / 256 ≡ b / 256 = ground arith in
      rw same (lex_lt-append_left (bytes n (b / 256)) (a % 256 ∷ []) (b % 256 ∷ []) (ground arith))
]

-- Twelve bits of sequence number.
abbrev pub IsValid : UuidState → Type 0
IsValid u = u.uuid_sequence < 2 ^ 12

-- A new millisecond, or a new number in the same one.
advance_cases :
    (u : UuidState) (now : ℕ) (readings : List ℕ) (random : ℕ) (u' : UuidState)
    → IsValid u
    → advance u now readings random ≡ some u'
    → IsValid u'
      × ((u.uuid_last_ms < u'.uuid_last_ms)
          ⊎ ((u.uuid_last_ms ≡ u'.uuid_last_ms) × (u.uuid_sequence < u'.uuid_sequence)))
unfolding advance
advance_cases u now readings random u' v done = elim (Bool-cases (leb now u.uuid_last_ms)) [
  | inr fresh ↦ (ground arith, inl (ground arith))
  | inl again ↦ elim (Bool-cases (ltb 0x0fff ((u.uuid_sequence + 1) % 2 ^ 16))) [
    | inr room ↦ (ground arith, inr (ground arith, ground arith))
    | inl used_up ↦ elim (Option-cases (wait u.uuid_last_ms u.uuid_last_ms readings)) [
      | inl never ↦ absurd (ground arith)
      | inr (ms, found) ↦
          let later = wait-later u.uuid_last_ms u.uuid_last_ms readings ms found in
          (ground arith, inl (ground (arith, later)))
    ]
  ]
]

layout-lt :
    (u u' : UuidState) (eighth eighth' : ℕ) (tail tail' : List ℕ)
    → IsValid u'
    → u'.uuid_last_ms < 2 ^ 48
    → (u.uuid_last_ms < u'.uuid_last_ms)
      ⊎ ((u.uuid_last_ms ≡ u'.uuid_last_ms) × (u.uuid_sequence < u'.uuid_sequence))
    → lex_lt (layout u eighth tail) (layout u' eighth' tail') ≡ true
unfolding layout
layout-lt u u' eighth eighth' tail tail' v in_range (inl earlier) =
    lex_lt-append (bytes 6 u.uuid_last_ms) (bytes 6 u'.uuid_last_ms)
      ((u.uuid_sequence / 256 + 0x70) ∷ (u.uuid_sequence % 256) ∷ (eighth % 64 + 0x80) ∷ tail)
      ((u'.uuid_sequence / 256 + 0x70) ∷ (u'.uuid_sequence % 256) ∷ (eighth' % 64 + 0x80) ∷ tail')
      (omega (arith, length-bytes 6 u.uuid_last_ms, length-bytes 6 u'.uuid_last_ms))
      (bytes-lt 6 u.uuid_last_ms u'.uuid_last_ms earlier in_range)
layout-lt u u' eighth eighth' tail tail' v in_range (inr (same, lower)) = rw same (
    lex_lt-append_left (bytes 6 u'.uuid_last_ms)
      ((u.uuid_sequence / 256 + 0x70) ∷ (u.uuid_sequence % 256) ∷ (eighth % 64 + 0x80) ∷ tail)
      ((u'.uuid_sequence / 256 + 0x70) ∷ (u'.uuid_sequence % 256) ∷ (eighth' % 64 + 0x80) ∷ tail')
      (ground (arith, lower)))

new_uuid_v7_made :
    (u : UuidState) (now : ℕ) (readings : List ℕ) (random eighth : ℕ) (tail : List ℕ)
    (u' : UuidState) (uuid : List ℕ)
    → new_uuid_v7 u now readings random eighth tail ≡ some (u', uuid)
    → (advance u now readings random ≡ some u') × (layout u' eighth tail ≡ uuid)
unfolding new_uuid_v7
new_uuid_v7_made u now readings random eighth tail u' uuid made =
    elim (Option-cases (advance u now readings random)) [
      | inl nothing ↦ absurd (ground arith)
      | inr (x, found) ↦
          let same : x ≡ u' = ground arith in
          (ground arith, subst (λ y. layout y eighth tail ≡ uuid) same (ground arith))
    ]

-- Of two UUIDs in a row, the second is greater in the order of bytes, whatever the clock says, even
-- if it goes back, as long as the time stamp has 48 bits.
pub new_uuid_v7-increasing :
    (u u' u'' : UuidState) (now now' : ℕ) (readings readings' : List ℕ)
    (random random' eighth eighth' : ℕ) (tail tail' uuid uuid' : List ℕ)
    → IsValid u
    → new_uuid_v7 u now readings random eighth tail ≡ some (u', uuid)
    → new_uuid_v7 u' now' readings' random' eighth' tail' ≡ some (u'', uuid')
    → u''.uuid_last_ms < 2 ^ 48
    → lex_lt uuid uuid' ≡ true
new_uuid_v7-increasing u u' u'' now now' readings readings' random random' eighth eighth' tail tail'
      uuid uuid' v first second in_range =
    let (moved, made) = new_uuid_v7_made u now readings random eighth tail u' uuid first in
    let (moved', made') =
      new_uuid_v7_made u' now' readings' random' eighth' tail' u'' uuid' second in
    let (v', rises) = advance_cases u now readings random u' v moved in
    let (v'', rises') = advance_cases u' now' readings' random' u'' v' moved' in
    subst (λ x. lex_lt x uuid' ≡ true) made
      (subst (λ y. lex_lt (layout u' eighth tail) y ≡ true) made'
        (layout-lt u' u'' eighth eighth' tail tail' v'' in_range rises'))
