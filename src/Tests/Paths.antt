-- ===== src/Tests/Paths.antt =====
-- objectmap/object_attribute_map.go: paths registered at the root of a new mapper.
use rulestone.Prelude.{◌≡◌, refl, none, List, [], ◌∷◌, arith, ◌↔◌, String}
use Prim.Native.Char.{code}
use rulestone.Prelude.Int.{ℤ, pos, negsuc}
use rulestone.Prelude.Fault.{Outcome, done, Returns, ◌>>=◌}
use rulestone.Condition.Operand.{Text}
use rulestone.Objectmap.Path.{
  Result, ok, err, negative_index, bad_index, path_segment, minus_one, split_segments,
}
use rulestone.Objectmap.Strings.{split, join, has_suffix, drop_dot}
use rulestone.Objectmap.TextMap.{lookup, put}
use rulestone.Condition.Operand.Numerals.{text_eq, parse_int}
use rulestone.Objectmap.Path.Shape.{IsSegment}
use rulestone.Objectmap.Dictionary.{root_rec, known, step, Dictionary, attribute_path_to_address}
use rulestone.Objectmap.Dictionary.Valid.{root-IsValid}
use rulestone.Objectmap.Dictionary.Paths.{IsRegistered, attribute_path_to_address-IsRegistered}
use rulestone.Objectmap.Dictionary.Reset.{IsReset, step-IsReset}
use rulestone.Objectmap.Address.{address_match_key}
use rulestone.Objectmap.Address.MatchKey.{attributes, address_match_key_iff}

abbrev pub bytes : String → Text
bytes String.[] = []
bytes (String.◌∷◌ c s) = code c ∷ bytes s

abbrev pub start : Dictionary
start = record { heap = root_rec ∷ []; ctx = record { errors = [] } }

-- The addresses of paths that are registered one after the other.
addresses : Dictionary → List String → Outcome (List (Result (List ℤ)))
addresses d [] = done []
addresses d (path ∷ paths) = do
  (d, r) ← attribute_path_to_address d 0 (bytes path)
  rs ← addresses d paths
  done (r ∷ rs)

registered :
    addresses start
      ("age" ∷ "person.children[2].name" ∷ "person.children[*]" ∷ "person" ∷ "x[-1]" ∷ "x[y]" ∷ [])
    ≡ done (
        ok (pos 0 ∷ [])
        ∷ ok (pos 1 ∷ pos 2 ∷ pos 0 ∷ [])
        ∷ ok (pos 1 ∷ negsuc 0 ∷ pos 1 ∷ [])
        ∷ ok (pos 2 ∷ [])
        ∷ err (negative_index (bytes "x[]") (negsuc 0))
        ∷ err (bad_index (bytes "y"))
        ∷ [])
unfolding addresses attribute_path_to_address split_segments text_eq drop_dot lookup parse_int put
    has_suffix join
registered = refl

-- The element `foo[0]` is registered anew after `foo[0].fred`.
element_moves :
    addresses start ("foo[0]" ∷ "foo[0].fred" ∷ "foo[0]" ∷ [])
    ≡ done (
        ok (pos 0 ∷ pos 0 ∷ pos 0 ∷ [])
        ∷ ok (pos 0 ∷ pos 0 ∷ pos 1 ∷ [])
        ∷ ok (pos 0 ∷ pos 0 ∷ pos 2 ∷ [])
        ∷ [])
unfolding addresses attribute_path_to_address split_segments text_eq drop_dot lookup parse_int put
    has_suffix join
element_moves = refl

attribute_path_to_address-IsRegistered_example :
    Returns
      (IsRegistered start 0 (bytes "a.b[1].c"))
      (attribute_path_to_address start 0 (bytes "a.b[1].c"))
attribute_path_to_address-IsRegistered_example =
    attribute_path_to_address-IsRegistered start 0 (bytes "a.b[1].c") root_rec [] refl refl refl
      root-IsValid

address_match_key_iff_example :
    (address_match_key (pos 3 ∷ pos 0 ∷ pos 12 ∷ [])
      ≡ address_match_key (pos 3 ∷ pos 7 ∷ pos 12 ∷ []))
    ↔ (attributes (pos 3 ∷ pos 0 ∷ pos 12 ∷ []) ≡ attributes (pos 3 ∷ pos 7 ∷ pos 12 ∷ []))
address_match_key_iff_example =
    address_match_key_iff (pos 3 ∷ pos 0 ∷ pos 12 ∷ []) (pos 3 ∷ pos 7 ∷ pos 12 ∷ []) (omega arith)
      (omega arith)

fred-IsSegment : IsSegment (path_segment (bytes "fred") [] minus_one)
unfolding split has_suffix text_eq
fred-IsSegment = record { clean = tt; suffix = refl }

root_knows_nothing : known (root_rec ∷ []) root_rec (bytes "fred") ≡ done none
unfolding known lookup
root_knows_nothing = refl

step-IsReset_example :
    Returns
      (IsReset 0 root_rec (path_segment (bytes "fred") [] minus_one))
      (step (root_rec ∷ []) 0 (path_segment (bytes "fred") [] minus_one))
step-IsReset_example =
    step-IsReset (root_rec ∷ []) 0 root_rec (path_segment (bytes "fred") [] minus_one) [] refl refl
      fred-IsSegment root-IsValid root_knows_nothing
