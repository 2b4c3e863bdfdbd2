-- ===== src/Saga/Compensation.antt =====
-- The index loop of `compensateReverse` against one pass over the reversed list.
use mathlib.Core.List.{reverse-cons, reverse-reverse, append_assoc, append-nil}
use goplusplus.Prelude.{
  ℕ, ◌≡◌, refl, ap, String, List, [], ◌∷◌, ◌++◌, reverse, some, length, get_elem?, length-reverse,
  sym, ◌∙◌,
}
use goplusplus.Saga.{Step, compensate_step, compensate_index, compensate_from, compensate_reverse}

module _ {World Failure : Type 0} where
  -- Each step of the list is compensated, from the first to the last.
  unfoldable pub compensate_all :
      List (Step World Failure) → World → List (String × Failure) → World × List (String × Failure)
  compensate_all [] w errors = (w, errors)
  compensate_all (step ∷ steps) w errors =
      let (w', errors') = compensate_step step w errors in compensate_all steps w' errors'

  get_elem?-append_length :
      (xs ys : List (Step World Failure)) (x : Step World Failure)
      → get_elem? (xs ++ x ∷ ys) (length xs) ≡ some x
  get_elem?-append_length [] ys x = refl
  get_elem?-append_length (z ∷ xs) ys x = get_elem?-append_length xs ys x

  reverse-cons_append :
      (x : Step World Failure) (rs ys : List (Step World Failure))
      → reverse (x ∷ rs) ++ ys ≡ reverse rs ++ x ∷ ys
  reverse-cons_append x rs ys = simp (reverse-cons, append_assoc)

  -- The round at `length rs` compensates the step at the head of the reversed list.
  compensate_index-append :
      (x : Step World Failure) (rs ys : List (Step World Failure)) (w : World)
      (errors : List (String × Failure))
      → compensate_index (length rs) (reverse (x ∷ rs) ++ ys) w errors ≡ compensate_step x w errors
  unfolding compensate_index
  compensate_index-append x rs ys w errors =
      rw
        (
          reverse-cons_append x rs ys,
          ← length-reverse rs,
          get_elem?-append_length (reverse rs) ys x,
          compensate_index,
        )
        refl

  compensate_from-append :
      (rs ys : List (Step World Failure)) (w : World) (errors : List (String × Failure))
      → compensate_from (length rs) (reverse rs ++ ys) w errors ≡ compensate_all rs w errors
  unfolding compensate_from compensate_all
  compensate_from-append [] ys w errors = refl
  compensate_from-append (x ∷ rs) ys w errors =
      let after = compensate_step x w errors in
      ap
        (λ (p : World × List (String × Failure)).
          compensate_from (length rs) (reverse (x ∷ rs) ++ ys) p.0 p.1)
        (compensate_index-append x rs ys w errors)
      ∙ ap (λ (l : List (Step World Failure)). compensate_from (length rs) l after.0 after.1)
          (reverse-cons_append x rs ys)
      ∙ compensate_from-append rs (x ∷ ys) after.0 after.1

  -- The loop compensates every completed step once, from the last one to the first.
  pub compensate_reverse-all :
      (executed : List (Step World Failure)) (w : World)
      → compensate_reverse executed w ≡ compensate_all (reverse executed) w []
  unfolding compensate_reverse
  compensate_reverse-all executed w =
      ap (λ (n : ℕ). compensate_from n executed w []) (sym (length-reverse executed))
      ∙ ap (λ (l : List (Step World Failure)). compensate_from (length (reverse executed)) l w [])
          (sym (append-nil (reverse (reverse executed)) ∙ reverse-reverse executed))
      ∙ compensate_from-append (reverse executed) [] w []
