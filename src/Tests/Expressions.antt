-- ===== src/Tests/Expressions.antt =====
-- engine/engine_impl.go: expressions and the loops over arrays on concrete operands.
use rulestone.Prelude.{ap, subst, ◌∙◌, ◌≡◌, ◌↔◌, refl, true, false, [], ◌∷◌}
use rulestone.Prelude.Int.{ℤ, pos}
use rulestone.Prelude.Fault.{done, panic}
use rulestone.Condition.Operand.{Operand, address_operand, boolean_operand, null_operand, is_const}
use rulestone.Objectmap.Values
use rulestone.Objectmap.Values.{
  Value, Values, nil, scalar, slice, end, item, get_nested_attribute_by_address,
  get_num_elements_at_address,
}
use rulestone.Engine.Closures.{Eval, eval_not, not_next}
use rulestone.Engine.Expressions.{is_null, eval_regexp_match}
use rulestone.Engine.Expressions.Nulls.{eval_regexp_match-null_iff}
use rulestone.Engine.Frames.{EvalState, ArrayAddress, eval_access, eval_for_all, eval_for_some}
use rulestone.Engine.Frames.Duality.{HasElements, AllThere, eval_for-duality}
use rulestone.Tests.Paths.{start}
use rulestone.Tests.Operands.{digest, formats}

abbrev Op : Type 0
Op = Operand ℤ

abbrev answers : Values Op
answers = item (scalar (boolean_operand true)) (item (scalar (boolean_operand false)) end)

-- {"answers": [true, false]}, and room for the frame of an element.
abbrev event : EvalState ℤ
event = record { dictionary = start; frames = slice (item (slice answers) end) ∷ nil ∷ [] }

abbrev array : ArrayAddress
array = record { address = pos 0 ∷ []; parent = 0 }

-- The value of the frame of the element.
abbrev element : Eval (EvalState ℤ) ℤ
element = eval_access (λ s. done (address_operand [] (pos 0 ∷ pos 0 ∷ []) 1 0, s))

-- A regexpMatch of an attribute that the event has no value for.
eval_regexp_match-null_iff_example :
    (eval_regexp_match formats digest (λ text. true) (λ s. done (null_operand, s)) event ≡ panic)
    ↔ (is_null formats digest null_operand ≡ true)
unfolding is_const
eval_regexp_match-null_iff_example =
    eval_regexp_match-null_iff formats digest (λ text. true) (λ s. done (null_operand, s))
      null_operand event event refl refl

event-HasElements : HasElements array event
unfolding get_nested_attribute_by_address Values.get
event-HasElements frame vs h k =
    let first : slice (item (slice answers) end) ≡ frame = cc in
    let read : done (slice answers) ≡ done (slice vs) =
      ap (λ f. get_nested_attribute_by_address f (pos 0 ∷ [])) first ∙ k in
    let same : answers ≡ vs = cc in subst AllThere same ((λ e. cc), ((λ e. cc), tt))

eval_for-duality_example :
    (eval_not (eval_for_some (λ e. []) array 1 element) event
      ≡ eval_for_all (λ e. []) array 1 (eval_not element) event)
    × (eval_not (eval_for_all (λ e. []) array 1 element) event
        ≡ eval_for_some (λ e. []) array 1 (eval_not element) event)
eval_for-duality_example = eval_for-duality (λ e. []) array 1 element event event-HasElements

not_all :
    eval_not (eval_for_all (λ e. []) array 1 element) event
    ≡ done (
      boolean_operand true,
      record event {
        frames = slice (item (slice answers) end) ∷ scalar (boolean_operand false) ∷ [];
      },
    )
unfolding eval_for_all eval_not not_next eval_access get_num_elements_at_address Values.count
    Values.get
not_all = refl
