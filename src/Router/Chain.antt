-- ===== src/Router/Chain.antt =====
-- context.go: Context.Next and Context.Abort, which run the handlers of a request. A handler is code
-- of the application: it acts on a world, may look at it, and may call Next or Abort any number of
-- times. The index is an int8, kept as a number below 256 that stands for itself or, from 128 on, for
-- the number that is 256 less. The loop runs on fuel.
mod Onion
mod Tests
use goplusplus.Prelude.{
  ℕ, zero, suc, ◌+◌, ◌%◌, Bool, true, false, List, [], ◌∷◌, Option, none, some, if◌then◌else◌, ltb,
  length, get_elem?,
}

module _ {ℓ} (W E : Type ℓ) where
  pub data Handler : Type ℓ where
    returns : Option E → Handler
    acts : (W → W) → Handler → Handler
    looks : (W → Handler) → Handler
    calls_next : (Option E → Handler) → Handler
    calls_abort : Handler → Handler

-- Context.index and Context.aborted
pub record Cursor : Type 0 where
  pub index : ℕ
  pub aborted : Bool

-- What a handler or Next does: a panic is an index out of range.
pub data Outcome {ℓ} (W E : Type ℓ) : Type ℓ where
  panicked out_of_fuel : Outcome W E
  finished : Option E → Cursor → W → Outcome W E

-- math.MaxInt8 / 2
abbrev pub abort_index : ℕ
abort_index = 63

abbrev pub as_int8 : ℕ → ℕ
as_int8 n = n % 256

-- a < b for two int8
unfoldable pub int8_less : ℕ → ℕ → Bool
int8_less a b = ltb ((a + 128) % 256) ((b + 128) % 256)

abbrev pub bump : Cursor → Cursor
bump c = record c { index = as_int8 (c.index + 1) }

abbrev pub abort_cursor : Cursor → Cursor
abort_cursor c = record c { index = abort_index; aborted = true }

-- c.handlers[c.index]; a negative index is out of range.
unfoldable pub handler_at {ℓ} : {H : Type ℓ} → List H → ℕ → Option H
handler_at handlers index = if ltb index 128 then get_elem? handlers index else none

module _ {ℓ} {W E : Type ℓ} where
  -- A handler, with what a call of Next does.
  unfoldable pub run_handler : (Cursor → W → Outcome W E) → Handler W E → Cursor → W → Outcome W E
  run_handler next (returns e) c w = finished e c w
  run_handler next (acts f rest) c w = run_handler next rest c (f w)
  run_handler next (looks rest) c w = run_handler next (rest w) c w
  run_handler next (calls_next rest) c w = elim (next c w) [
    | panicked ↦ panicked
    | out_of_fuel ↦ out_of_fuel
    | finished e c' w' ↦ run_handler next (rest e) c' w'
  ]
  run_handler next (calls_abort rest) c w = run_handler next rest (abort_cursor c) w

  -- The end of a round: an error ends the loop, which goes on otherwise.
  abbrev pub resume : (Cursor → W → Outcome W E) → Outcome W E → Outcome W E
  resume next panicked = panicked
  resume next out_of_fuel = out_of_fuel
  resume next (finished (some e) c w) = finished (some e) c w
  resume next (finished none c w) = next c w

  -- The loop of Next.
  unfoldable pub run_loop : List (Handler W E) → ℕ → Cursor → W → Outcome W E
  run_loop handlers zero c w = out_of_fuel
  run_loop handlers (suc fuel) c w =
      let next : Cursor → W → Outcome W E = λ c' w'. run_loop handlers fuel (bump c') w' in
      elim (int8_less c.index (as_int8 (length handlers))) [
        | false ↦ finished none c w
        | true ↦ elim c.aborted [
          | true ↦ finished none c w
          | false ↦ elim (handler_at handlers c.index) [
            | none ↦ panicked
            | some handler ↦ resume next (run_handler next handler c w)
          ]
        ]
      ]

  -- c.Next of a context that was reset: the index is -1.
  abbrev pub run_next : List (Handler W E) → ℕ → W → Outcome W E
  run_next handlers fuel w = run_loop handlers fuel (bump record { index = 255; aborted = false }) w
