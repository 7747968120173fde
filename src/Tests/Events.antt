-- ===== src/Tests/Events.antt =====
-- objectmap/object_attribute_map.go: events mapped by the records of some paths. A scalar is a number,
-- and is mapped to itself.
use rulestone.Prelude.{ℕ, ◌≡◌, refl, false, none, some, List, [], ◌∷◌, String}
use rulestone.Prelude.Int.{pos, negsuc}
use rulestone.Prelude.Fault.{Outcome, done, panic, Returns, ◌>>=◌}
use rulestone.Condition.Operand.Numerals.{text_eq, parse_int}
use rulestone.Objectmap.Strings.{has_suffix, drop_dot}
use rulestone.Objectmap.TextMap.{lookup, put}
use rulestone.Objectmap.Path.{ok, split_segments}
use rulestone.Objectmap.Dictionary.{root_rec, Dictionary, attribute_path_to_address}
use rulestone.Objectmap.Dictionary.Valid.{root-IsValid}
use rulestone.Objectmap.Dictionary.Paths.{IsRegistered, attribute_path_to_address-IsRegistered}
use rulestone.Objectmap.Values
use rulestone.Objectmap.Values.{
  Value, Values, nil, scalar, slice, end, item, get_nested_attribute_by_address,
}
use rulestone.Objectmap.Event.{
  Json, plain, object, array, no_items, items, no_fields, fields, Mapped, build_object_map,
}
use rulestone.Objectmap.Event.Maps.{
  IsPlain, plain_value, plain_object, plain_array, no_values, values_plain, no_keys, keys_plain,
}
use rulestone.Objectmap.Pool.{Pool, map_object}
use rulestone.Objectmap.Pool.Fits.{IsMapped, map_object-IsMapped}
use rulestone.Tests.Paths.{bytes, start}

register_all : Dictionary → List String → Outcome Dictionary
register_all d [] = done d
register_all d (path ∷ paths) = do
  (d, r) ← attribute_path_to_address d 0 (bytes path)
  register_all d paths

mapped : List String → Json ℕ → Outcome (Mapped ℕ)
mapped paths v = do
  d ← register_all start paths
  build_object_map (λ n. n) d.heap [] v (item nil (item nil (item nil end))) 0 []

-- {"name": 7, "kids": [{"age": 3}, {"age": 4}], "unused": 9}
abbrev pub family : Json ℕ
family = object (
    fields (bytes "name") (plain 7) (
      fields (bytes "kids")
        (array (
          items (object (fields (bytes "age") (plain 3) no_fields))
            (items (object (fields (bytes "age") (plain 4) no_fields)) no_items)))
        (fields (bytes "unused") (plain 9) no_fields)))

family-mapped :
    mapped ("name" ∷ "kids[0].age" ∷ []) family
    ≡ done (
      item (scalar 7) (
          item
            (slice (item (slice (item (scalar 3) end)) (item (slice (item (scalar 4) end)) end)))
            (item nil end)),
      (pos 0 ∷ [])
          ∷ (pos 1 ∷ pos 0 ∷ pos 0 ∷ [])
          ∷ (pos 1 ∷ pos 1 ∷ pos 0 ∷ [])
          ∷ (pos 1 ∷ pos 1 ∷ [])
          ∷ [],
    )
unfolding mapped register_all attribute_path_to_address build_object_map split_segments text_eq
    drop_dot lookup parse_int put has_suffix Values.count Values.get Values.put Values.nils
    Values.add
family-mapped = refl

-- The element of `foo[0]` is no longer stored once `foo[0].fred` is registered.
abbrev numbers : Json ℕ
numbers = object (fields (bytes "foo") (array (items (plain 5) no_items)) no_fields)

element_stored :
    mapped ("foo[0]" ∷ []) numbers
    ≡ done (
      item (slice (item (slice (item (scalar 5) end)) end)) (item nil (item nil end)),
      (pos 0 ∷ pos 0 ∷ pos 0 ∷ []) ∷ (pos 0 ∷ pos 0 ∷ []) ∷ [],
    )
unfolding mapped register_all attribute_path_to_address build_object_map split_segments text_eq
    drop_dot lookup parse_int put has_suffix Values.count Values.get Values.put Values.nils
    Values.add
element_stored = refl

element_lost :
    mapped ("foo[0]" ∷ "foo[0].fred" ∷ []) numbers
    ≡ done (
      item (slice (item (slice (item nil (item nil end))) end)) (item nil (item nil end)),
      (pos 0 ∷ pos 0 ∷ []) ∷ [],
    )
unfolding mapped register_all attribute_path_to_address build_object_map split_segments text_eq
    drop_dot lookup parse_int put has_suffix Values.count Values.get Values.put Values.nils
    Values.add
element_lost = refl

-- A scalar under a key that ends in brackets takes the slot of the array, and a later element of the
-- array panics.
bracket_key :
    mapped ("foo[0]" ∷ []) (
      object (
        fields
          (bytes "foo[]")
          (plain 1)
          (fields (bytes "foo") (array (items (plain 5) no_items)) no_fields)))
    ≡ panic
unfolding mapped register_all attribute_path_to_address build_object_map split_segments text_eq
    drop_dot lookup parse_int put has_suffix Values.count Values.get Values.put Values.nils
    Values.add
bracket_key = refl

abbrev pub named : Dictionary
named = record {
  heap =
      record root_rec {
        dict = some (([], 1) ∷ (bytes "name", 2) ∷ []);
        dict_index = 2 ∷ [];
        num_attributes = 1;
      }
      ∷ record root_rec { map_index = negsuc 0; dict = none; mapper = false }
      ∷ record root_rec {
        dict = none;
        mapper = false;
        attribute = bytes "name";
        path = bytes "name";
        address = pos 0 ∷ [];
      }
      ∷ [];
  ctx = record { errors = [] };
}

pub name-IsRegistered : IsRegistered start 0 (bytes "name") (named, ok (pos 0 ∷ []))
unfolding attribute_path_to_address split_segments text_eq drop_dot lookup parse_int put has_suffix
name-IsRegistered =
    attribute_path_to_address-IsRegistered start 0 (bytes "name") root_rec [] refl refl refl
      root-IsValid

pub family-IsPlain : IsPlain family
family-IsPlain = plain_object (
    keys_plain (refl, (refl, (refl, (refl, tt)))) (plain_value 7)
      (keys_plain (refl, (refl, (refl, (refl, tt))))
        (plain_array (
          values_plain
            (plain_object (keys_plain (refl, (refl, (refl, tt))) (plain_value 3) no_keys))
            (values_plain
              (plain_object (keys_plain (refl, (refl, (refl, tt))) (plain_value 4) no_keys))
              no_values)))
        (keys_plain (refl, (refl, (refl, (refl, (refl, (refl, tt)))))) (plain_value 9) no_keys)))

abbrev no_events : Pool ℕ
no_events = record { objects = []; object_pool = []; object_list = [] }

map_object-IsMapped_example :
    Returns (IsMapped named.heap (2 ∷ [])) (map_object (λ n. n) named.heap family none no_events)
map_object-IsMapped_example =
    map_object-IsMapped (λ n. n) named.heap
      (record root_rec {
        dict = some (([], 1) ∷ (bytes "name", 2) ∷ []);
        dict_index = 2 ∷ [];
        num_attributes = 1;
      })
      family none no_events name-IsRegistered.valid refl family-IsPlain tt
