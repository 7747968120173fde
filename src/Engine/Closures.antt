-- ===== src/Engine/Closures.antt =====
-- engine/engine_impl.go: the closures that genEvalForAndCondition, genEvalForOrCondition and
-- genEvalForNotCondition make, over the evaluators of their operands. `S` stands for what a closure
-- reads and writes: the event and the frames, which forAll and forSome write, and the log.
use rulestone.Prelude.{◌≡◌, refl, true, false, not, List, [], ◌∷◌, map}
use rulestone.Prelude.Fault.{Outcome, done, panic, out_of_fuel, ◌>>=◌}
use rulestone.Condition.Operand.{Operand, boolean_operand, error_operand}

abbrev pub Eval : Type 0 → Type 0 → Type 0
Eval S F = S → Outcome (Operand F × S)

module _ {S F : Type 0} where
  -- The loop of an And after one result: an error and a false end it; a result of another kind panics.
  unfoldable pub and_next : Operand F → S → Outcome (Operand F × S) → Outcome (Operand F × S)
  and_next (error_operand err) s rest = done (error_operand err, s)
  and_next (boolean_operand true) s rest = rest
  and_next (boolean_operand false) s rest = done (boolean_operand false, s)
  and_next _ s rest = panic

  unfoldable pub or_next : Operand F → S → Outcome (Operand F × S) → Outcome (Operand F × S)
  or_next (error_operand err) s rest = done (error_operand err, s)
  or_next (boolean_operand true) s rest = done (boolean_operand true, s)
  or_next (boolean_operand false) s rest = rest
  or_next _ s rest = panic

  unfoldable pub not_next : Operand F × S → Outcome (Operand F × S)
  not_next (error_operand err, s) = done (error_operand err, s)
  not_next (boolean_operand b, s) = done (boolean_operand (not b), s)
  not_next (_, s) = panic

  unfoldable pub eval_and : List (Eval S F) → Eval S F
  unfolding and_next
  eval_and [] s = done (boolean_operand true, s)
  eval_and (eval ∷ evals) s = eval s >>= λ (result, s'). and_next result s' (eval_and evals s')

  unfoldable pub eval_or : List (Eval S F) → Eval S F
  unfolding or_next
  eval_or [] s = done (boolean_operand false, s)
  eval_or (eval ∷ evals) s = eval s >>= λ (result, s'). or_next result s' (eval_or evals s')

  unfoldable pub eval_not : Eval S F → Eval S F
  unfolding not_next
  eval_not eval s = eval s >>= not_next

  pub and_or_next :
      (o : Operand F) (s : S) (r : Outcome (Operand F × S)) (k : S → Outcome (Operand F × S))
      → (r >>= not_next) ≡ k s
      → (and_next o s r >>= not_next) ≡ (not_next (o, s) >>= λ (o', s'). or_next o' s' (k s'))
  unfolding and_next or_next not_next
  and_or_next (error_operand err) s r k h = refl
  and_or_next (boolean_operand true) s r k h = h
  and_or_next (boolean_operand false) s r k h = refl
  and_or_next _ s r k h = refl

  pub or_and_next :
      (o : Operand F) (s : S) (r : Outcome (Operand F × S)) (k : S → Outcome (Operand F × S))
      → (r >>= not_next) ≡ k s
      → (or_next o s r >>= not_next) ≡ (not_next (o, s) >>= λ (o', s'). and_next o' s' (k s'))
  unfolding and_next or_next not_next
  or_and_next (error_operand err) s r k h = refl
  or_and_next (boolean_operand true) s r k h = refl
  or_and_next (boolean_operand false) s r k h = h
  or_and_next _ s r k h = refl

  pub bind_next :
      (c : Outcome (Operand F × S)) (f k : Operand F × S → Outcome (Operand F × S))
      → ((o : Operand F) (s : S) → (f (o, s) >>= not_next) ≡ (not_next (o, s) >>= k))
      → (c >>= f >>= not_next) ≡ (c >>= not_next >>= k)
  bind_next (done (o, s)) f k h = h o s
  bind_next panic f k h = refl
  bind_next out_of_fuel f k h = refl

  -- De Morgan's laws hold of the closures, with errors, panics and the order of evaluation: a Not of
  -- an And evaluates as the Or of the Nots, and a Not of an Or as the And of the Nots.
  pub eval_not-de_morgan :
      (evals : List (Eval S F)) (s : S)
      → (eval_not (eval_and evals) s ≡ eval_or (map eval_not evals) s)
        × (eval_not (eval_or evals) s ≡ eval_and (map eval_not evals) s)
  unfolding eval_not eval_and eval_or
  eval_not-de_morgan [] s = (refl, refl)
  eval_not-de_morgan (eval ∷ evals) s = (
    bind_next (eval s) (λ (o, t). and_next o t (eval_and evals t))
        (λ (o, t). or_next o t (eval_or (map eval_not evals) t))
        (λ o t.
          and_or_next o t (eval_and evals t) (eval_or (map eval_not evals))
            (eval_not-de_morgan evals t).0),
    bind_next (eval s) (λ (o, t). or_next o t (eval_or evals t))
        (λ (o, t). and_next o t (eval_and (map eval_not evals) t))
        (λ o t.
          or_and_next o t (eval_or evals t) (eval_and (map eval_not evals))
            (eval_not-de_morgan evals t).1),
  )
