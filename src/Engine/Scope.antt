-- ===== src/Engine/Scope.antt =====
-- engine/engine_impl.go: the scopes of forAll and forSome, and the addresses of paths that start with the
-- name of an element. A scope is a list with its ancestors after it; its evaluator is not modelled.

pub mod Resolve
pub mod Expand
pub mod SetUp
use rulestone.Prelude.{
  ℕ, zero, suc, ◌+◌, Bool, true, false, ◌||◌, ◌==◌, Option, none, some, List, [], ◌∷◌, ◌++◌,
  get_elem?, if◌then◌else◌,
}
use rulestone.Prelude.Int.{ℤ}
use rulestone.Prelude.Fault.{Outcome, done, panic, or_panic, ◌>>=◌}
use rulestone.Condition.Operand.{Text}
use rulestone.Condition.Operand.Numerals.{text_eq}
use rulestone.Objectmap.Strings.{split_rest, brackets}
use rulestone.Objectmap.Path.{Result, ok, err}
use rulestone.Objectmap.Dictionary.{Dictionary, attribute_path_to_address}
use rulestone.Objectmap.Address.{
  address_to_dictionary_rec, address_to_full_path, address_to_full_address,
}

pub record ForEachScope : Type 0 where
  pub path : Text
  pub element : Text
  pub nesting_level : ℕ
  pub attr_dict_rec : ℕ

-- The scope that has the element, or the root; nil when the list has neither.
unfoldable pub find_element_scope : Text → List ForEachScope → List ForEachScope
find_element_scope element [] = []
find_element_scope element (scope ∷ parents) =
    let rest = find_element_scope element parents in
    if text_eq element scope.element || scope.nesting_level == 0 then scope ∷ parents else rest

-- The scope of a path, and the path from there: the whole path at the root, and otherwise what follows
-- the first dot.
unfoldable pub expand_path : Text → List ForEachScope → Outcome (ForEachScope × Text)
unfolding find_element_scope
expand_path path parents = do
  let (element, rest) = split_rest path b'.'
  scope ← or_panic (get_elem? (find_element_scope element parents) 0)
  if scope.nesting_level == 0
      then done (scope, path)
      else do child ← or_panic (get_elem? rest 0); done (scope, child)

pub record AttributeAddress : Type 0 where
  pub address : List ℤ
  pub path : Text
  pub parent_parameter_index : ℕ
  pub full_address : List ℤ

-- The address of a path below a scope.
unfoldable pub address_in :
    ForEachScope
    → Text
    → Dictionary × Result (List ℤ)
    → Outcome (Dictionary × Result AttributeAddress)
address_in scope path (d, err e) = done (d, err e)
address_in scope path (d, ok address) = do
  r ← or_panic (get_elem? d.heap scope.attr_dict_rec)
  done (
    d,
    ok (record {
      address = address;
      path = path;
      parent_parameter_index = scope.nesting_level;
      full_address = address_to_full_address r address;
    }),
  )

unfoldable pub get_attribute_path_address :
    Dictionary → Text → List ForEachScope → Outcome (Dictionary × Result AttributeAddress)
unfolding expand_path address_in
get_attribute_path_address d attr_path parents = do
  (scope, path) ← expand_path attr_path parents
  r ← attribute_path_to_address d scope.attr_dict_rec path
  address_in scope path r

-- The scope of the array's elements below a scope of `level`, and the array's address again, whose scope
-- is the one it had before.
unfoldable pub element_scope :
    ℕ
    → Text
    → AttributeAddress
    → ForEachScope
    → Dictionary × Result (List ℤ)
    → Outcome (Dictionary × Result (AttributeAddress × ForEachScope))
element_scope level element array_address scope (d, err e) = done (d, err e)
element_scope level element array_address scope (d, ok address) = do
  new_dict_rec ← address_to_dictionary_rec d.heap scope.attr_dict_rec address
  new_path ← address_to_full_path d.heap scope.attr_dict_rec address
  r ← or_panic (get_elem? d.heap scope.attr_dict_rec)
  (if array_address.parent_parameter_index == scope.nesting_level
      then done (
        d,
        ok (
          record {
            address = address;
            path = new_path;
            parent_parameter_index = scope.nesting_level;
            full_address = address_to_full_address r address;
          },
          record {
            path = new_path;
            element = element;
            nesting_level = level + 1;
            attr_dict_rec = new_dict_rec;
          },
        ),
      )
      else panic)

unfoldable pub set_up :
    List ForEachScope
    → Text
    → Text
    → Dictionary × Result AttributeAddress
    → Outcome (Dictionary × Result (AttributeAddress × ForEachScope))
unfolding expand_path element_scope
set_up parents element path (d, err e) = done (d, err e)
set_up parents element path (d, ok array_address) = do
  (scope, child) ← expand_path path parents
  r ← attribute_path_to_address d scope.attr_dict_rec child
  parent ← or_panic (get_elem? parents 0)
  element_scope parent.nesting_level element array_address scope r

unfoldable pub setup_eval_for_each :
    Dictionary
    → List ForEachScope
    → Text
    → Text
    → Outcome (Dictionary × Result (AttributeAddress × ForEachScope))
unfolding get_attribute_path_address set_up
setup_eval_for_each d parents element path = do
  r ← get_attribute_path_address d (path ++ brackets) parents
  set_up parents element (path ++ brackets) r
