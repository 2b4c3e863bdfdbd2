-- ===== src/Ids/Ulid/Order.antt =====
-- The order of ULIDs as strings.
use goplusplus.Prelude.{
  ℕ, zero, suc, ◌≡◌, refl, subst, ◌+◌, ◌*◌, ◌/◌, ◌%◌, ◌^◌, ◌≤◌, ◌<◌, Bool, true, false, ◌&&◌, List,
  [], ◌∷◌, ◌++◌, if◌then◌else◌, ◌==◌, ltb, arith, length, length-append, Bool-cases, inl, inr,
}
use goplusplus.Ids.Ulid.{UlidState, symbol, encode, advance, new_ulid}

-- Go's `<` on strings.
abbrev pub lex_lt : List ℕ → List ℕ → Bool
lex_lt [] [] = false
lex_lt [] (y ∷ ys) = true
lex_lt (x ∷ xs) [] = false
lex_lt (x ∷ xs) (y ∷ ys) =
    let rest = lex_lt xs ys in if ltb x y then true else (if x == y then rest else false)

pub lex_lt-append :
    (xs ys us vs : List ℕ)
    → length xs ≡ length ys
    → lex_lt xs ys ≡ true
    → lex_lt (xs ++ us) (ys ++ vs) ≡ true
lex_lt-append [] [] us vs same less = absurd (ground arith)
lex_lt-append [] (y ∷ ys) us vs same less = absurd (omega arith)
lex_lt-append (x ∷ xs) [] us vs same less = absurd (omega arith)
lex_lt-append (x ∷ xs) (y ∷ ys) us vs same less = ground (arith, lex_lt-append xs ys us vs)

pub lex_lt-append_left :
    (xs us vs : List ℕ) → lex_lt us vs ≡ true → lex_lt (xs ++ us) (xs ++ vs) ≡ true
lex_lt-append_left [] us vs less = less
lex_lt-append_left (x ∷ xs) us vs less = ground (arith, lex_lt-append_left xs us vs less)

-- The alphabet is in the order of the codes.
rises_from : ℕ → ℕ → Bool
rises_from zero digit = true
rises_from (suc n) digit = ltb (symbol digit) (symbol (suc digit)) && rises_from n (suc digit)

alphabet_rises : rises_from 31 0 ≡ true
unfolding rises_from symbol
alphabet_rises = refl

rises-step :
    (n start j : ℕ)
    → rises_from n start ≡ true
    → start ≤ j
    → j < start + n
    → symbol j < symbol (suc j)
unfolding rises_from
rises-step zero start j rises above below = absurd (omega arith)
rises-step (suc n) start j rises above below = elim (Bool-cases (start == j)) [
  | inl here ↦
      let same : start ≡ j = ground arith in
      subst (λ d. symbol d < symbol (suc d)) same (ground arith)
  | inr there ↦ rises-step n (suc start) j (ground arith) (ground arith) (omega arith)
]

symbol-lt : (a b : ℕ) → a < b → b < 32 → symbol a < symbol b
symbol-lt a zero less below = absurd (omega arith)
symbol-lt a (suc b) less below =
    let step : symbol b < symbol (suc b) =
      rises-step 31 0 b alphabet_rises (omega arith) (omega arith) in
    elim (Bool-cases (ltb a b)) [
      | inl lower ↦ omega (arith, symbol-lt a b (ground arith) (omega arith), step)
      | inr same ↦
          let same' : b ≡ a = ground arith in
          subst (λ d. symbol d < symbol (suc b)) same' (omega (arith, step))
    ]

abbrev pub capacity : ℕ → ℕ
capacity zero = 1
capacity (suc n) = 32 * capacity n

length-encode : (n value : ℕ) → length (encode n value) ≡ n
unfolding encode
length-encode zero value = refl
length-encode (suc n) value = omega (
  arith,
  length-append (encode n (value / 32)) (symbol (value % 32) ∷ []),
  length-encode n (value / 32),
)

encode-lt : (n a b : ℕ) → a < b → b < capacity n → lex_lt (encode n a) (encode n b) ≡ true
unfolding encode
encode-lt zero a b less below = absurd (omega arith)
encode-lt (suc n) a b less below = elim (Bool-cases (ltb (a / 32) (b / 32))) [
  | inl higher ↦
      lex_lt-append (encode n (a / 32)) (encode n (b / 32)) (symbol (a % 32) ∷ [])
        (symbol (b % 32) ∷ []) (omega (arith, length-encode n (a / 32), length-encode n (b / 32)))
        (encode-lt n (a / 32) (b / 32) (ground arith) (omega arith))
  | inr not_higher ↦
      let same : a / 32 ≡ b / 32 = ground arith in
      let last : symbol (a % 32) < symbol (b % 32) =
        symbol-lt (a % 32) (b % 32) (omega (arith, same)) (omega arith) in
      rw same (
        lex_lt-append_left (encode n (b / 32)) (symbol (a % 32) ∷ []) (symbol (b % 32) ∷ [])
          (ground (arith, last)))
]

advance-rises :
    (u : UlidState) (now random random' : ℕ)
    → (advance u now random).ulid_entropy + 1 < 2 ^ 64
    → (advance (advance u now random) now random').ulid_entropy
      ≡ (advance u now random).ulid_entropy + 1
unfolding advance
advance-rises u now random random' room = ground arith

-- Of two calls in a row with clock readings that do not go back, below 2 ^ 50 milliseconds, the
-- second returns the greater string, given that the entropy is not at its last value.
pub new_ulid-increasing :
    (u : UlidState) (now later random random' : ℕ)
    → now ≤ later
    → later < 2 ^ 50
    → (advance u now random).ulid_entropy + 1 < 2 ^ 64
    → lex_lt (new_ulid u now random).1 (new_ulid (new_ulid u now random).0 later random').1 ≡ true
unfolding new_ulid
new_ulid-increasing u now later random random' forward in_range room =
    elim (Bool-cases (ltb now later)) [
      | inl earlier ↦
          lex_lt-append (encode 10 now) (encode 10 later)
            (encode 16 (advance u now random).ulid_entropy)
            (encode 16 (advance (advance u now random) later random').ulid_entropy)
            (omega (arith, length-encode 10 now, length-encode 10 later))
            (encode-lt 10 now later (ground arith) in_range)
      | inr not_earlier ↦
          let same : now ≡ later = ground arith in
          let room' : (advance u later random).ulid_entropy + 1 < 2 ^ 64 =
            subst (λ ms. (advance u ms random).ulid_entropy + 1 < 2 ^ 64) same room in
          let counted = advance-rises u later random random' room' in
          rw same (
            lex_lt-append_left (encode 10 later) (encode 16 (advance u later random).ulid_entropy)
              (encode 16 (advance (advance u later random) later random').ulid_entropy)
              (encode-lt 16 (advance u later random).ulid_entropy
                (advance (advance u later random) later random').ulid_entropy
                (omega (arith, counted)) (omega (arith, counted, room'))))
    ]
