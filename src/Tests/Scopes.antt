-- ===== src/Tests/Scopes.antt =====
-- engine/engine_impl.go: the scopes of a forAll over an array of the event.
use rulestone.Prelude.{some, none, false, ◌≡◌, ◌↔◌, refl, [], ◌∷◌}
use rulestone.Prelude.Int.{pos, negsuc}
use rulestone.Prelude.Fault.{panic}
use rulestone.Condition.Operand.Numerals.{text_eq, parse_int}
use rulestone.Objectmap.Strings.{split_rest, has_suffix, drop_dot}
use rulestone.Objectmap.TextMap.{lookup, put}
use rulestone.Objectmap.Path.{split_segments}
use rulestone.Objectmap.Dictionary.{root_rec, Dictionary, attribute_path_to_address}
use rulestone.Objectmap.Address.{
  address_to_dictionary_rec, address_to_full_path, address_to_full_address,
}
use rulestone.Engine.Scope.{
  ForEachScope, AttributeAddress, find_element_scope, expand_path, setup_eval_for_each,
}
use rulestone.Engine.Scope.Resolve.{IsInnermost, find_element_scope-IsInnermost}
use rulestone.Engine.Scope.Expand.{HasElement, expand_path-panic_iff}
use rulestone.Objectmap.Strings.Split.{IsFree}
use rulestone.Engine.Scope.SetUp.{IsBelow, setup_eval_for_each-IsBelow}
use rulestone.Tests.Paths.{bytes, start}

abbrev root : ForEachScope
root = record { path = []; element = []; nesting_level = 0; attr_dict_rec = 0 }

abbrev kid : ForEachScope
kid = record { path = bytes "kids[]"; element = bytes "kid"; nesting_level = 1; attr_dict_rec = 2 }

find_element_scope-IsInnermost_example :
    IsInnermost (bytes "kid") (kid ∷ root ∷ []) (find_element_scope (bytes "kid") (kid ∷ root ∷ []))
find_element_scope-IsInnermost_example =
    find_element_scope-IsInnermost (bytes "kid") (kid ∷ root ∷ []) (refl, refl)

expand_path-panic_iff_example :
    (expand_path (bytes "kid") (kid ∷ root ∷ []) ≡ panic)
    ↔ (IsFree b'.' (bytes "kid") × HasElement (bytes "kid") (kid ∷ root ∷ []))
expand_path-panic_iff_example = expand_path-panic_iff (bytes "kid") (kid ∷ root ∷ []) (refl, refl)

-- A filter like forSome("kids", "kid", kid == 5) panics when it is read.
kid_alone : expand_path (bytes "kid") (kid ∷ root ∷ []) ≡ panic
unfolding expand_path split_rest find_element_scope text_eq
kid_alone = refl

-- What a forSome("kids", "kid", ...) at the root opens.
abbrev kids : Dictionary
kids = record {
  heap =
      record root_rec {
        dict = some (([], 1) ∷ (bytes "kids[]", 2) ∷ []);
        dict_index = 2 ∷ [];
        num_attributes = 1;
      }
      ∷ record root_rec { map_index = negsuc 0; dict = none; mapper = false }
      ∷ record root_rec {
        dict = some [];
        mapper = false;
        attribute = bytes "kids[]";
        path = bytes "kids[]";
        address = pos 0 ∷ [];
      }
      ∷ [];
  ctx = record { errors = [] };
}

abbrev kids_address : AttributeAddress
kids_address = record {
  address = pos 0 ∷ [];
  path = bytes "kids[]";
  parent_parameter_index = 0;
  full_address = pos 0 ∷ [];
}

setup_eval_for_each-IsBelow_example : IsBelow (bytes "kid") (root ∷ []) (kids_address, kid)
unfolding setup_eval_for_each split_rest text_eq attribute_path_to_address split_segments drop_dot
    lookup parse_int put has_suffix address_to_dictionary_rec address_to_full_path
    address_to_full_address
setup_eval_for_each-IsBelow_example =
    setup_eval_for_each-IsBelow start kids (root ∷ []) (bytes "kid") (bytes "kids")
      (kids_address, kid) refl refl
