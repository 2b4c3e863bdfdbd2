-- ===== src/Router/Chain/Onion.antt =====
-- The order in which the handlers of a request run.
use mathlib.Core.List.{append_assoc}
use goplusplus.Prelude.{
  ℕ, zero, suc, ◌≡◌, refl, sym, ap, subst, ◌∙◌, ◌+◌, ◌≤◌, ◌<◌, true, false, List, [], ◌∷◌, ◌++◌,
  Option, none, some, arith, length, length-append, get_elem?, lt→ltb,
}
use goplusplus.Router.Chain.{
  Handler, returns, acts, calls_next, Cursor, Outcome, finished, as_int8, int8_less, bump,
  handler_at, run_handler, run_loop, run_next, resume,
}

get_elem?-append {ℓ} :
    {A : Type ℓ} (pre : List A) (x : A) (xs : List A)
    → get_elem? (pre ++ x ∷ xs) (length pre) ≡ some x
get_elem?-append [] x xs = refl
get_elem?-append (y ∷ pre) x xs = get_elem?-append pre x xs

handler_at-append {ℓ} :
    {A : Type ℓ} (pre : List A) (x : A) (xs : List A)
    → length pre < 128
    → handler_at (pre ++ x ∷ xs) (length pre) ≡ some x
unfolding handler_at
handler_at-append pre x xs small = rw (lt→ltb (length pre) 128 small) (get_elem?-append pre x xs)

int8_less-small : (i n : ℕ) → i < n → n ≤ 127 → int8_less i (as_int8 n) ≡ true
unfolding int8_less
int8_less-small i n below small = ground arith

int8_less-past : (i n : ℕ) → n ≤ i → i ≤ 127 → int8_less i (as_int8 n) ≡ false
unfolding int8_less
int8_less-past i n past small = ground arith

abbrev pub around {ℓ} : {W : Type ℓ} → List ((W → W) × (W → W)) → (W → W) → W → W
around [] f w = f w
around ((before, after) ∷ ms) f w = after (around ms f (before w))

bump-small :
    (i : ℕ)
    → i ≤ 126
    → bump record { index = i; aborted = false } ≡ record { index = suc i; aborted = false }
bump-small i small = ap (λ n. record { index = n; aborted = false }) (ground arith)

module _ {ℓ} {W E : Type ℓ} where
  -- A middleware acts, calls the rest of the chain, and acts again.
  abbrev pub middleware : (W → W) × (W → W) → Handler W E
  middleware (before, after) = acts before (calls_next (λ e. acts after (returns e)))

  -- A chain of middlewares around a last handler.
  abbrev pub chain_of : List ((W → W) × (W → W)) → (W → W) → List (Handler W E)
  chain_of [] f = acts f (returns none) ∷ []
  chain_of (m ∷ ms) f = middleware m ∷ chain_of ms f

  -- The loop past the end.
  run_loop-past :
      (handlers : List (Handler W E)) (fuel i : ℕ) (w : W)
      → 1 ≤ fuel
      → length handlers ≤ i
      → i ≤ 127
      → run_loop handlers fuel record { index = i; aborted = false } w
        ≡ finished none record { index = i; aborted = false } w
  unfolding run_loop
  run_loop-past handlers zero i w some_fuel past small = absurd (omega arith)
  run_loop-past handlers (suc fuel) i w some_fuel past small =
      rw (run_loop, int8_less-past i (length handlers) past small) refl

  -- One round of the loop.
  run_loop-round :
      (handlers pre : List (Handler W E)) (h : Handler W E) (rest : List (Handler W E)) (fuel : ℕ)
      (w : W)
      → pre ++ h ∷ rest ≡ handlers
      → length handlers ≤ 64
      → run_loop handlers (suc fuel) record { index = length pre; aborted = false } w
        ≡ resume
            (λ c' w'. run_loop handlers fuel (bump c') w')
            (run_handler
              (λ c' w'. run_loop handlers fuel (bump c') w')
              h
              record { index = length pre; aborted = false }
              w)
  unfolding run_loop
  run_loop-round handlers pre h rest fuel w made small =
      let total = ap length (sym made) ∙ length-append pre (h ∷ rest) in
      let here =
        subst (λ t. handler_at t (length pre) ≡ some h) made
          (handler_at-append pre h rest (omega (arith, total, small))) in
      rw
        (
          run_loop,
          int8_less-small (length pre) (length handlers) (omega (arith, total, small))
              (omega (arith, small)),
          here,
        )
        refl

  run_handler-middleware :
      (next : Cursor → W → Outcome W E) (before after : W → W) (e : Option E) (c c' : Cursor)
      (w w' : W)
      → next c (before w) ≡ finished e c' w'
      → run_handler next (middleware (before, after)) c w ≡ finished e c' (after w')
  unfolding run_handler
  run_handler-middleware next before after e c c' w w' inner = rw inner refl

  run_loop-bump :
      (handlers : List (Handler W E)) (fuel i j : ℕ) (w : W)
      → 1 ≤ fuel
      → length handlers ≤ suc i
      → i ≤ 126
      → suc i ≡ j
      → run_loop handlers fuel (bump record { index = i; aborted = false }) w
        ≡ finished none record { index = j; aborted = false } w
  run_loop-bump handlers fuel i j w some_fuel past small next =
      ap (λ c. run_loop handlers fuel c w) (bump-small i small)
      ∙ run_loop-past handlers fuel (suc i) w some_fuel past (omega arith)
      ∙ ap (λ n. finished none record { index = n; aborted = false } w) next

  length-chain_of :
      (ms : List ((W → W) × (W → W))) (f : W → W) (hs : List (Handler W E))
      → chain_of ms f ≡ hs
      → length hs ≡ suc (length ms)
  length-chain_of [] f hs e = ap length (sym e)
  length-chain_of (m ∷ ms) f hs e =
      ap length (sym e) ∙ ap suc (length-chain_of ms f (chain_of ms f) refl)

  -- A chain of middlewares, from the one that the index is at.
  chain_of-around :
      (handlers pre : List (Handler W E)) (ms : List ((W → W) × (W → W))) (f : W → W) (fuel : ℕ)
      (w : W)
      → pre ++ chain_of ms f ≡ handlers
      → length handlers ≤ 64
      → length ms + 2 ≤ fuel
      → run_loop handlers fuel record { index = length pre; aborted = false } w
        ≡ finished none
            record { index = length handlers + length ms; aborted = false }
            (around ms f w)
  unfolding run_handler
  chain_of-around handlers pre ms f zero w made small enough = absurd (omega arith)
  chain_of-around handlers pre [] f (suc fuel) w made small enough =
      let total = ap length (sym made) ∙ length-append pre (acts f (returns none) ∷ []) in
      run_loop-round handlers pre (acts f (returns none)) [] fuel w made small
      ∙ run_loop-bump handlers fuel (length pre) (length handlers + 0) (f w) (omega arith)
          (omega (arith, total)) (omega (arith, total, small)) (omega (arith, total))
  chain_of-around handlers pre ((before, after) ∷ ms) f (suc fuel) w made small enough =
      let m : Handler W E = middleware (before, after) in
      let rest = length-chain_of ms f (chain_of ms f) refl in
      let total = ap length (sym made) ∙ length-append pre (m ∷ chain_of ms f) in
      let inner =
        ap (λ c. run_loop handlers fuel c (before w))
          (bump-small (length pre) (omega (arith, total, small))
            ∙ ap (λ n. record { index = n; aborted = false })
                (sym (length-append pre (m ∷ []) ∙ omega arith)))
        ∙ chain_of-around handlers (pre ++ m ∷ []) ms f fuel (before w)
            (append_assoc pre (m ∷ []) (chain_of ms f) ∙ made) small (omega arith) in
      run_loop-round handlers pre m (chain_of ms f) fuel w made small
      ∙ ap (resume (λ c' w'. run_loop handlers fuel (bump c') w')) (
          run_handler-middleware (λ c' w'. run_loop handlers fuel (bump c') w') before after none
            record { index = length pre; aborted = false }
            record { index = length handlers + length ms; aborted = false } w
            (around ms f (before w)) inner)
      ∙ run_loop-bump handlers fuel (length handlers + length ms)
          (length handlers + suc (length ms)) (after (around ms f (before w))) (omega arith)
          (omega arith) (omega (arith, total, rest, small)) (omega arith)

  -- A chain of at most 63 middlewares, each of which acts, calls Next and acts again, around a last
  -- handler, runs to its end without an error or a panic: the first acts of the middlewares in the
  -- order of the chain, then the last handler, then their second acts in the reverse order, each
  -- once. Two rounds more than there are middlewares are fuel enough.
  pub run_next-around :
      (ms : List ((W → W) × (W → W))) (f : W → W) (fuel : ℕ) (w : W)
      → length ms ≤ 63
      → length ms + 2 ≤ fuel
      → (c : Cursor) × (run_next (chain_of ms f) fuel w ≡ finished none c (around ms f w))
  run_next-around ms f fuel w small enough =
      let rest = length-chain_of ms f (chain_of ms f) refl in
      (
        record { index = length (chain_of ms f) + length ms; aborted = false },
        chain_of-around (chain_of ms f) [] ms f fuel w refl (omega (arith, rest)) enough,
      )
