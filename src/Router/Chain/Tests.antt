-- ===== src/Router/Chain/Tests.antt =====
-- Chains of handlers, run.
use goplusplus.Prelude.{
  ℕ, suc, ◌≡◌, ◌+◌, refl, List, [], ◌∷◌, ◌++◌, Option, none, some, arith, replicate,
}
use goplusplus.Router.Chain.{
  returns, acts, calls_abort, Cursor, Outcome, panicked, finished, int8_less, handler_at,
  run_handler, run_loop, run_next,
}
use goplusplus.Router.Chain.Onion.{chain_of, around, run_next-around}

program : Unit {0}
unfolding int8_less handler_at run_handler run_loop
program = tt

abbrev notes : ℕ → List ℕ → List ℕ
notes n w = w ++ n ∷ []

abbrev two : List ((List ℕ → List ℕ) × (List ℕ → List ℕ))
two = (notes 1, notes 4) ∷ (notes 2, notes 3) ∷ []

abbrev visits : Outcome ℕ ℕ → Option ℕ
visits panicked = none
visits (finished e c w) = some w
visits r = some 0

-- The number of handlers that ran, in a chain of n middlewares around a last handler.
abbrev visited : ℕ → Option ℕ
visited n = visits (run_next (chain_of (replicate n (suc, (λ w. w))) suc) (n + 2) 0)

sixty_four_handlers : visited 63 ≡ some 64
unfolding program
sixty_four_handlers = refl

-- One more middleware, and the index runs over on the way back.
sixty_five_handlers : visited 64 ≡ none
unfolding program
sixty_five_handlers = refl

-- No handler of a chain of 128 runs, since int8 (128) is negative.
handlers_128 : visits (run_next (replicate 128 (acts suc (returns none))) 200 0) ≡ some 0
unfolding program
handlers_128 = refl

abort_stops :
    visits (run_next (acts suc (calls_abort (returns none)) ∷ acts suc (returns none) ∷ []) 9 0)
    ≡ some 1
unfolding program
abort_stops = refl

error_stops :
    visits (run_next (acts suc (returns (some 7)) ∷ acts suc (returns none) ∷ []) 9 0) ≡ some 1
unfolding program
error_stops = refl

run_next-around_example :
    (c : Cursor) × (run_next {W = List ℕ} {E = ℕ} (chain_of two (notes 9)) 4 []
      ≡ finished none c (around two (notes 9) []))
run_next-around_example = run_next-around two (notes 9) 4 [] (omega arith) (omega arith)
