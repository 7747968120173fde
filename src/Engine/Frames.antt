-- ===== src/Engine/Frames.antt =====
-- engine/engine_impl.go: what a closure reads and writes, the access to an attribute, and the loops of
-- forAll and forSome. A frame is the value of an element, and the first is the event.
pub mod Duality
use rulestone.Prelude.{
  ℕ, zero, suc, ◌+◌, Bool, true, false, Option, none, some, List, [], ◌∷◌, ◌++◌, length, ltb, set,
  get_elem?, if◌then◌else◌,
}
use rulestone.Prelude.Int.{ℤ, pos}
use rulestone.Prelude.Fault.{Outcome, done, panic, or_panic, ◌>>=◌}
use rulestone.Condition.Operand.{
  Text, OperandError, message, Operand, address_operand, boolean_operand, null_operand,
  error_operand,
}
use rulestone.Objectmap.Path.{PathError, Result, ok, err}
use rulestone.Objectmap.Dictionary.{Dictionary}
use rulestone.Objectmap.Values.{
  Value, nil, scalar, slice, get_nested_attribute_by_address, get_num_elements_at_address,
}
use rulestone.Engine.Closures.{Eval}

abbrev pub Frame : Type 0 → Type 0
Frame F = Value (Operand F)

-- The mapper's records and log, and the frames, which all closures share.
pub record EvalState (F : Type 0) : Type 0 where
  pub dictionary : Dictionary
  pub frames : List (Frame F)

-- arrayAddress: its address below the frame of its parent.
pub record ArrayAddress : Type 0 where
  pub address : List ℤ
  pub parent : ℕ

module _ {F : Type 0} where
  -- val.(condition.Operand), where a missing value is null.
  unfoldable pub value_of : Frame F → Outcome (Operand F)
  value_of nil = done null_operand
  value_of (scalar o) = done o
  value_of (slice vs) = panic

  unfoldable pub access : Operand F → EvalState F → Outcome (Operand F × EvalState F)
  unfolding value_of
  access (error_operand e) s = done (error_operand e, s)
  access (address_operand address' full parameter hash) s = do
    frame ← or_panic (get_elem? s.frames parameter)
    v ← get_nested_attribute_by_address frame address'
    o ← value_of v
    done (o, s)
  access _ s = panic

  -- evalOperandAccess, over the evaluator of the address.
  unfoldable pub eval_access : Eval (EvalState F) F → Eval (EvalState F) F
  unfolding access
  eval_access address_eval s = do (address, s) ← address_eval s; access address s

  -- frames[level] = frame
  unfoldable pub set_frame : ℕ → Frame F → EvalState F → Outcome (EvalState F)
  set_frame level frame s =
      if ltb level (length s.frames)
      then done (record s { frames = set s.frames level frame })
      else panic

  -- One round of forAll: `next` is the rest of the loop, with the result of this round.
  unfoldable pub all_next :
      Operand F × EvalState F
      → (Operand F → EvalState F → Outcome (Operand F × EvalState F))
      → Outcome (Operand F × EvalState F)
  all_next (error_operand e, s) next = done (error_operand e, s)
  all_next (boolean_operand true, s) next = next (boolean_operand true) s
  all_next (boolean_operand false, s) next = done (boolean_operand false, s)
  all_next (_, s) next = panic

  unfoldable pub some_next :
      Operand F × EvalState F
      → (Operand F → EvalState F → Outcome (Operand F × EvalState F))
      → Outcome (Operand F × EvalState F)
  some_next (error_operand e, s) next = done (error_operand e, s)
  some_next (boolean_operand true, s) next = done (boolean_operand true, s)
  some_next (boolean_operand false, s) next = next (boolean_operand false) s
  some_next (_, s) next = panic

  -- The body of a round, for an element with a value.
  unfoldable pub round :
      ℕ
      → Eval (EvalState F) F
      → (Operand F × EvalState F → Outcome (Operand F × EvalState F))
      → Frame F
      → EvalState F
      → Outcome (Operand F × EvalState F)
  unfolding set_frame
  round level eval next element s = do s ← set_frame level element s; r ← eval s; next r

  -- `newFrame == nil` ends the loop.
  unfoldable pub unless_nil {ℓ} : {A : Type ℓ} → Frame F → A → A → A
  unless_nil nil stop go = stop
  unless_nil (scalar o) stop go = go
  unless_nil (slice vs) stop go = go

  module _ (level : ℕ) (eval : Eval (EvalState F) F) (frame : Frame F) (address : List ℤ) where
    -- The rounds that are left, from element `i` on, of the array at `address` below `frame`.
    unfoldable pub all_from : ℕ → ℕ → Operand F → EvalState F → Outcome (Operand F × EvalState F)
    unfolding round all_next unless_nil
    all_from zero i result s = done (result, s)
    all_from (suc rounds) i result s = do
      element ← get_nested_attribute_by_address frame (address ++ pos i ∷ [])
      unless_nil element (done (boolean_operand false, s))
          (round level eval (λ r. all_next r (all_from rounds (suc i))) element s)

    unfoldable pub some_from : ℕ → ℕ → Operand F → EvalState F → Outcome (Operand F × EvalState F)
    unfolding round some_next unless_nil
    some_from zero i result s = done (result, s)
    some_from (suc rounds) i result s = do
      element ← get_nested_attribute_by_address frame (address ++ pos i ∷ [])
      unless_nil element (done (result, s))
          (round level eval (λ r. some_next r (some_from rounds (suc i))) element s)

  module _ (error_text : PathError → Text) where
    -- The loop, after the number of the elements was asked for.
    unfoldable pub on_elements :
        (ℕ → EvalState F → Outcome (Operand F × EvalState F))
        → EvalState F
        → Dictionary × Result ℕ
        → Outcome (Operand F × EvalState F)
    on_elements loop s (d, err e) =
        done (error_operand (message (error_text e)), record s { dictionary = d })
    on_elements loop s (d, ok n) = loop n (record s { dictionary = d })

    abbrev all_loop :
        ArrayAddress
        → ℕ
        → Eval (EvalState F) F
        → ℕ
        → EvalState F
        → Outcome (Operand F × EvalState F)
    all_loop array level eval n s = do
      frame ← or_panic (get_elem? s.frames array.parent)
      all_from level eval frame array.address n 0 (boolean_operand true) s

    abbrev some_loop :
        ArrayAddress
        → ℕ
        → Eval (EvalState F) F
        → ℕ
        → EvalState F
        → Outcome (Operand F × EvalState F)
    some_loop array level eval n s = do
      frame ← or_panic (get_elem? s.frames array.parent)
      some_from level eval frame array.address n 0 (boolean_operand false) s

    -- genEvalForAllCondition and genEvalForSomeCondition
    unfoldable pub eval_for_all : ArrayAddress → ℕ → Eval (EvalState F) F → Eval (EvalState F) F
    unfolding on_elements all_from
    eval_for_all array level eval s = do
      r ← get_num_elements_at_address s.dictionary array.address array.parent s.frames
      on_elements (all_loop array level eval) s r

    unfoldable pub eval_for_some : ArrayAddress → ℕ → Eval (EvalState F) F → Eval (EvalState F) F
    unfolding on_elements some_from
    eval_for_some array level eval s = do
      r ← get_num_elements_at_address s.dictionary array.address array.parent s.frames
      on_elements (some_loop array level eval) s r
