-- ===== src/Engine/Scope/SetUp.antt =====
-- The scope that a forAll or forSome opens below its parents.
use rulestone.Prelude.{
  suc, ◌+◌, ◌≤◌, ◌<◌, ◌≡◌, refl, ap, sym, subst, ◌∙◌, Bool, true, false, ◌==◌, some, List, [], ◌∷◌,
  ◌++◌, get_elem?, arith, if◌then◌else◌,
}
use rulestone.Prelude.Int.{ℤ}
use rulestone.Prelude.Fault.{Outcome, done, panic, or_panic, or_panic-eq-done, ◌>>=◌, >>=-eq-done}
use rulestone.Condition.Operand.{Text}
use rulestone.Objectmap.Strings.{split_rest, brackets}
use rulestone.Objectmap.Path.{Result, ok, err}
use rulestone.Objectmap.Dictionary.{Dictionary, attribute_path_to_address}
use rulestone.Objectmap.Address.{address_to_dictionary_rec, address_to_full_path}
use rulestone.Engine.Scope.{
  ForEachScope, AttributeAddress, find_element_scope, expand_path, get_attribute_path_address,
  element_scope, set_up, setup_eval_for_each,
}
use rulestone.Engine.Scope.Expand.{below}
use rulestone.Engine.Scope.Resolve.{IsChain, find_element_scope-IsInnermost}

-- No ancestor has a greater level.
IsChain-level :
    (before : List ForEachScope) (scope : ForEachScope) (after : List ForEachScope)
    (parent : ForEachScope)
    → IsChain (before ++ scope ∷ after)
    → get_elem? (before ++ scope ∷ after) 0 ≡ some parent
    → scope.nesting_level ≤ parent.nesting_level
IsChain-level [] scope after parent chain h =
    let same : scope ≡ parent = cc in omega (arith, ap (λ s. s.nesting_level) same)
IsChain-level (b ∷ []) scope after parent chain h =
    let same : b ≡ parent = cc in omega (arith, ap (λ s. s.nesting_level) same, chain.0)
IsChain-level (b ∷ c ∷ bs) scope after parent chain h =
    let same : b ≡ parent = cc in
    omega (
      arith,
      ap (λ s. s.nesting_level) same,
      chain.0,
      IsChain-level (c ∷ bs) scope after c chain.1 refl,
    )

found-level :
    (element : Text) (parents : List ForEachScope) (scope parent : ForEachScope)
    → IsChain parents
    → get_elem? (find_element_scope element parents) 0 ≡ some scope
    → get_elem? parents 0 ≡ some parent
    → scope.nesting_level ≤ parent.nesting_level
found-level element parents scope parent chain h k =
    let i = find_element_scope-IsInnermost element parents chain in
    let same : some i.scope ≡ some scope = sym (ap (λ ss. get_elem? ss 0) i.is_found) ∙ h in
    let one : i.scope ≡ scope = cc in
    subst (λ s. s.nesting_level ≤ parent.nesting_level) one
      (IsChain-level i.before i.scope i.after parent (subst IsChain i.parts chain)
        (ap (λ ss. get_elem? ss 0) (sym i.parts) ∙ k))

if_done : {A : Type 0} (b : Bool) {x y : A} → (if b then done x else panic) ≡ done y → x ≡ y
if_done true h = cc
if_done false h = cc

ok_eq :
    {A : Type 0} (r s : Dictionary × Result A) {x y : A} → r.1 ≡ ok x → s.1 ≡ ok y → r ≡ s → x ≡ y
ok_eq r s p q h = let same : ok _ ≡ ok _ = sym p ∙ ap (λ t. t.1) h ∙ q in cc

-- A scope one level below the parents, for an array of one of them.
abbrev pub IsBelow : Text → List ForEachScope → AttributeAddress × ForEachScope → Type 0
IsBelow element parents (array, scope) =
    IsChain (scope ∷ parents)
    × (scope.element ≡ element)
    × (array.parent_parameter_index < scope.nesting_level)

below-scope :
    (path : Text) (found scope : ForEachScope) (child : Text)
    → below path found ≡ done (scope, child)
    → found ≡ scope
below-scope path found scope child h = at (found.nesting_level == 0) h
  where
    at :
        (b : Bool)
        → if◌then◌else◌ {A = Outcome (ForEachScope × Text)} b
            (done (found, path))
            ((or_panic (get_elem? (split_rest path b'.').1 0) >>= λ rest. done (found, rest)))
          ≡ done (scope, child)
        → found ≡ scope
    at true e = cc
    at false e =
        let (rest, is, same) = >>=-eq-done (or_panic (get_elem? (split_rest path b'.').1 0)) _ e in
        cc

expand-scope :
    (path : Text) (parents : List ForEachScope) {scope : ForEachScope} {child : Text}
    → expand_path path parents ≡ done (scope, child)
    → get_elem? (find_element_scope (split_rest path b'.').0 parents) 0 ≡ some scope
unfolding expand_path
expand-scope path parents {scope = scope} {child = child} h =
    let (found, is, rest) =
      >>=-eq-done (or_panic (get_elem? (find_element_scope (split_rest path b'.').0 parents) 0)) _
        h in
    or_panic-eq-done _ is ∙ ap some (below-scope path found scope child rest)

IsChain-on :
    (scope : ForEachScope) (parents : List ForEachScope) (parent : ForEachScope)
    → IsChain parents
    → get_elem? parents 0 ≡ some parent
    → scope.nesting_level ≡ suc parent.nesting_level
    → IsChain (scope ∷ parents)
IsChain-on scope [] parent chain k e = cc
IsChain-on scope (p ∷ ps) parent chain k e =
    let same : p ≡ parent = cc in (e ∙ ap (λ s. suc s.nesting_level) (sym same), chain)

element_scope-IsBelow :
    (element : Text) (array_address : AttributeAddress) (scope parent : ForEachScope)
    (parents : List ForEachScope) (r : Dictionary × Result (List ℤ)) {d : Dictionary}
    {made : AttributeAddress × ForEachScope}
    → IsChain parents
    → get_elem? parents 0 ≡ some parent
    → scope.nesting_level ≤ parent.nesting_level
    → element_scope parent.nesting_level element array_address scope r ≡ done (d, ok made)
    → IsBelow element parents made
unfolding element_scope
element_scope-IsBelow element array_address scope parent parents (e, err x) chain k low h = cc
element_scope-IsBelow element array_address scope parent parents (e, ok address) {d} {made} chain k
      low h =
    let (new_dict_rec, is, h₁) =
      >>=-eq-done (address_to_dictionary_rec e.heap scope.attr_dict_rec address) _ h in
    let (new_path, has, h₂) =
      >>=-eq-done (address_to_full_path e.heap scope.attr_dict_rec address) _ h₁ in
    let (r, found, h₃) = >>=-eq-done (or_panic (get_elem? e.heap scope.attr_dict_rec)) _ h₂ in
    let opened : ForEachScope = record {
      path = new_path;
      element = element;
      nesting_level = parent.nesting_level + 1;
      attr_dict_rec = new_dict_rec;
    } in
    let one = ok_eq _ _ refl refl (if_done _ h₃) in
    subst (IsBelow element parents) one
      (IsChain-on opened parents parent chain k (omega arith), refl, omega (arith, low))

set_up-IsBelow :
    (parents : List ForEachScope) (element path : Text) (r : Dictionary × Result AttributeAddress)
    {d : Dictionary} {made : AttributeAddress × ForEachScope}
    → IsChain parents
    → set_up parents element path r ≡ done (d, ok made)
    → IsBelow element parents made
unfolding set_up
set_up-IsBelow parents element path (e, err x) chain h = cc
set_up-IsBelow parents element path (e, ok array_address) chain h =
    let ((scope, child), is, h₁) = >>=-eq-done (expand_path path parents) _ h in
    let (r, has, h₂) = >>=-eq-done (attribute_path_to_address e scope.attr_dict_rec child) _ h₁ in
    let (parent, found, h₃) = >>=-eq-done (or_panic (get_elem? parents 0)) _ h₂ in
    let k = or_panic-eq-done (get_elem? parents 0) found in
    element_scope-IsBelow element array_address scope parent parents r chain k
      (found-level (split_rest path b'.').0 parents scope parent chain
        (expand-scope path parents is) k)
      h₃

-- When setupEvalForEach below a chain of scopes returns a scope, it has the element's name and is one level
-- below its parent, so that it is a chain with its ancestors again; and the array is read from the frame
-- of a lower level than the scope's own.
pub setup_eval_for_each-IsBelow :
    (d d' : Dictionary) (parents : List ForEachScope) (element path : Text)
    (made : AttributeAddress × ForEachScope)
    → IsChain parents
    → setup_eval_for_each d parents element path ≡ done (d', ok made)
    → IsBelow element parents made
unfolding setup_eval_for_each
setup_eval_for_each-IsBelow d d' parents element path made chain h =
    let (r, is, h') = >>=-eq-done (get_attribute_path_address d (path ++ brackets) parents) _ h in
    set_up-IsBelow parents element (path ++ brackets) r chain h'
