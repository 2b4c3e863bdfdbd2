-- ===== src/Ids/Snowflake/Order.antt =====
-- Identifiers of one node rise, and those of two nodes differ.
use goplusplus.Prelude.{
  ℕ, ◌≡◌, ◌≢◌, refl, sym, subst, ◌∙◌, ◌+◌, ◌%◌, ◌^◌, ◌≤◌, ◌<◌, ◌⊎◌, List, [], ◌∷◌, ◌++◌, some, ◌==◌,
  leb, arith, Bool-cases, Option-cases, inl, inr,
}
use goplusplus.Prelude.Int.{ℤ, ◌+ℤ◌, ◌-ℤ◌, ◌<ℤ◌, to_int64}
use goplusplus.Ids.Snowflake.{
  SnowflakeNode, snowflake_epoch, nodes, sequences, shift_22, compose, wait, finish, next_id,
}

pub record IsValid (n : SnowflakeNode) : Type 0 where
  pub node : n.node_id < nodes
  pub number : n.sequence < sequences

-- What NextID does: a millisecond and a sequence number, later than the last ones.
pub record Advance (n n' : SnowflakeNode) (id : ℤ) : Type 0 where
  pub composed : id ≡ compose n'.last_ms n.node_id n'.sequence
  pub same_node : n'.node_id ≡ n.node_id
  pub number : n'.sequence < sequences
  pub later : n.last_ms ≤ n'.last_ms
  pub rises : (n.last_ms < n'.last_ms) ⊎ (n.sequence < n'.sequence)

pub wait-later :
    (now last : ℕ) (readings : List ℕ) (ms : ℕ) → wait now last readings ≡ some ms → last < ms
unfolding wait
wait-later now last [] ms found = ground arith
wait-later now last (reading ∷ readings) ms found =
    ground (arith, wait-later reading last readings ms)

finish-Advance :
    (n : SnowflakeNode) (ms number : ℕ)
    → n.last_ms ≤ ms
    → number < sequences
    → (n.last_ms < ms) ⊎ (n.sequence < number)
    → Advance n (finish n ms number).0 (finish n ms number).1
unfolding finish
finish-Advance n ms number forward below rises = record {
  composed = refl;
  same_node = refl;
  number = below;
  later = forward;
  rises = rises;
}

next_id_cases :
    (n : SnowflakeNode) (now : ℕ) (readings : List ℕ) (n' : SnowflakeNode) (id : ℤ)
    → IsValid n
    → n.last_ms ≤ now
    → next_id n now readings ≡ some (n', id)
    → (ms : ℕ) × (number : ℕ) × (finish n ms number ≡ (n', id))
      × (n.last_ms ≤ ms)
      × (number < sequences)
      × ((n.last_ms < ms) ⊎ (n.sequence < number))
unfolding next_id
next_id_cases n now readings n' id v forward done = elim (Bool-cases (now == n.last_ms)) [
  | inr fresh ↦ (now, 0, ground arith, forward, omega arith, inl (ground arith))
  | inl again ↦ elim (Bool-cases ((n.sequence + 1) % sequences == 0)) [
    | inr room ↦ (
      now,
      (n.sequence + 1) % sequences,
      ground arith,
      forward,
      omega arith,
      inr (ground (arith, v.number)),
    )
    | inl wrapped ↦ elim (Option-cases (wait now n.last_ms readings)) [
      | inl never ↦ absurd (ground arith)
      | inr (ms, found) ↦
          let later = wait-later now n.last_ms readings ms found in
          (ms, 0, ground arith, omega (arith, later), omega arith, inl later)
    ]
  ]
]

next_id-Advance :
    (n : SnowflakeNode) (now : ℕ) (readings : List ℕ) (n' : SnowflakeNode) (id : ℤ)
    → IsValid n
    → n.last_ms ≤ now
    → next_id n now readings ≡ some (n', id)
    → Advance n n' id
next_id-Advance n now readings n' id v forward done =
    let (ms, number, made, ms_forward, below, rises) =
      next_id_cases n now readings n' id v forward done in
    subst (λ (r : SnowflakeNode × ℤ). Advance n r.0 r.1) made
      (finish-Advance n ms number ms_forward below rises)

compose-lt :
    (a b node sa sb : ℕ)
    → node < nodes
    → sa < sequences
    → sb < sequences
    → b < snowflake_epoch + 2 ^ 41
    → a ≤ b
    → (a < b) ⊎ (sa < sb)
    → compose a node sa <ℤ compose b node sb
unfolding compose shift_22 to_int64 ◌+ℤ◌ ◌-ℤ◌
compose-lt a b node sa sb hn ha hb early le rises = ground arith

compose-node :
    (a b na nb sa sb : ℕ)
    → na < nodes
    → nb < nodes
    → sa < sequences
    → sb < sequences
    → compose a na sa ≡ compose b nb sb
    → na ≡ nb
unfolding compose shift_22 to_int64 ◌+ℤ◌ ◌-ℤ◌
compose-node a b na nb sa sb hna hnb ha hb same = ground arith

pub next_id-IsValid :
    (n : SnowflakeNode) (now : ℕ) (readings : List ℕ) (n' : SnowflakeNode) (id : ℤ)
    → IsValid n
    → n.last_ms ≤ now
    → next_id n now readings ≡ some (n', id)
    → IsValid n'
next_id-IsValid n now readings n' id v forward done =
    let a = next_id-Advance n now readings n' id v forward done in
    record { node = omega (arith, a.same_node, v.node); number = a.number }

-- Of two identifiers that a node returns in a row, with clock readings that do not go back, the
-- second is the greater number, as long as it is made less than 2 ^ 41 milliseconds after the epoch.
pub next_id-increasing :
    (n : SnowflakeNode) (now now' : ℕ) (readings readings' : List ℕ) (n' n'' : SnowflakeNode)
    (id id' : ℤ)
    → IsValid n
    → n.last_ms ≤ now
    → next_id n now readings ≡ some (n', id)
    → n'.last_ms ≤ now'
    → next_id n' now' readings' ≡ some (n'', id')
    → n''.last_ms < snowflake_epoch + 2 ^ 41
    → id <ℤ id'
next_id-increasing n now now' readings readings' n' n'' id id' v forward first forward' second
      early =
    let a = next_id-Advance n now readings n' id v forward first in
    let v' = next_id-IsValid n now readings n' id v forward first in
    let b = next_id-Advance n' now' readings' n'' id' v' forward' second in
    let less =
      compose-lt n'.last_ms n''.last_ms n.node_id n'.sequence n''.sequence v.node a.number b.number
        early b.later b.rises in
    let first_id : compose n'.last_ms n.node_id n'.sequence ≡ id = sym a.composed in
    let second_id : compose n''.last_ms n.node_id n''.sequence ≡ id' =
      subst (λ node. compose n''.last_ms node n''.sequence ≡ id') a.same_node (sym b.composed) in
    subst (λ x. x <ℤ id') first_id
      (subst (λ y. compose n'.last_ms n.node_id n'.sequence <ℤ y) second_id less)

-- Nodes with different numbers never return the same identifier, as long as no node's clock goes back.
pub next_id-distinct :
    (m n : SnowflakeNode) (now now' : ℕ) (readings readings' : List ℕ) (m' n' : SnowflakeNode)
    (id id' : ℤ)
    → IsValid m
    → IsValid n
    → m.node_id ≢ n.node_id
    → m.last_ms ≤ now
    → n.last_ms ≤ now'
    → next_id m now readings ≡ some (m', id)
    → next_id n now' readings' ≡ some (n', id')
    → id ≢ id'
next_id-distinct m n now now' readings readings' m' n' id id' vm vn differ fm fn first second same =
    let a = next_id-Advance m now readings m' id vm fm first in
    let b = next_id-Advance n now' readings' n' id' vn fn second in
    differ (
      compose-node m'.last_ms n'.last_ms m.node_id n.node_id m'.sequence n'.sequence vm.node vn.node
        a.number b.number (sym a.composed ∙ same ∙ b.composed))

wait-moved : (readings : List ℕ) (now last : ℕ) → last < now → wait now last readings ≡ some now
unfolding wait
wait-moved [] now last later = ground arith
wait-moved (reading ∷ readings) now last later = ground arith

wait-returns :
    (before after : List ℕ) (now last ms : ℕ)
    → last < ms
    → (k : ℕ) × (wait now last (before ++ ms ∷ after) ≡ some k)
unfolding wait
wait-returns [] after now last ms later = elim (Bool-cases (leb now last)) [
  | inr moved ↦ (now, ground arith)
  | inl still ↦ (ms, ground (arith, wait-moved after ms last))
]
wait-returns (reading ∷ before) after now last ms later = elim (Bool-cases (leb now last)) [
  | inr moved ↦ (now, ground arith)
  | inl still ↦
      let (k, found) = wait-returns before after reading last ms later in (k, ground arith)
]

-- NextID returns as soon as one of the readings it takes is later than the last identifier's.
pub next_id-returns :
    (n : SnowflakeNode) (now : ℕ) (before after : List ℕ) (ms : ℕ)
    → n.last_ms < ms
    → (r : SnowflakeNode × ℤ) × (next_id n now (before ++ ms ∷ after) ≡ some r)
unfolding next_id
next_id-returns n now before after ms later =
    let (k, found) = wait-returns before after now n.last_ms ms later in
    elim (Bool-cases (now == n.last_ms)) [
      | inr fresh ↦ (finish n now 0, ground arith)
      | inl again ↦ elim (Bool-cases ((n.sequence + 1) % sequences == 0)) [
        | inr room ↦ (finish n now ((n.sequence + 1) % sequences), ground arith)
        | inl wrapped ↦ (finish n k 0, ground arith)
      ]
    ]
