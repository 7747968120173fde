-- ===== src/Objectmap/Event.antt =====
-- buildObjectMap, MapObject and the pool of events. The order in which Go ranges over an object's map
-- is that of its fields here; `T` stands for the scalars, nil included, that reflect tells apart.
pub mod Frames
pub mod Maps
use rulestone.Prelude.{
  ℕ, zero, suc, ◌+◌, ◌-◌, Option, none, some, Bool, true, false, List, [], ◌∷◌, ◌++◌, get_elem?,
  ltb, if◌then◌else◌,
}
use rulestone.Prelude.Int.{ℤ, pos, negsuc, ◌==ℤ◌}
use rulestone.Prelude.Fault.{Outcome, done, panic, or_panic, ◌>>=◌}
use rulestone.Condition.Operand.{Text}
use rulestone.Condition.Operand.Numerals.{text_eq}
use rulestone.Objectmap.Strings.{has_suffix, brackets}
use rulestone.Objectmap.TextMap.{lookup}
use rulestone.Objectmap.Path.{minus_one}
use rulestone.Objectmap.Dictionary.{AttrDictionaryRec, Heap, entries}
use rulestone.Objectmap.Values
use rulestone.Objectmap.Values.{Value, Values, nil, scalar, slice, end, item, get, nils, count}

-- An event; `other` is a value of another kind.
mutual
  pub data Json (T : Type 0) : Type 0 where
    plain : T → Json T
    object : Fields T → Json T
    array : Items T → Json T
    other : Json T

  pub data Items (T : Type 0) : Type 0 where
    no_items : Items T
    items : Json T → Items T → Items T

  pub data Fields (T : Type 0) : Type 0 where
    no_fields : Fields T
    fields : Text → Json T → Fields T → Fields T

-- The values after a call, and the addresses that its callback was called with.
abbrev pub Mapped : Type 0 → Type 0
Mapped S = Values S × List (List ℤ)

module _ {S : Type 0} where
  -- values[i] = v
  unfoldable pub store : Values S → ℤ → Value S → Outcome (Values S)
  store vs (pos i) v = if ltb i (count vs) then done (Values.put vs i v) else panic
  store vs (negsuc i) v = panic

  -- values[i]
  unfoldable pub read : Values S → ℤ → Outcome (Value S)
  read vs (pos i) = or_panic (get vs i)
  read vs (negsuc i) = panic

  -- The slice of an array's elements with one more.
  unfoldable pub extended : Value S → Values S → Outcome (Value S)
  extended nil new = done (slice (item (slice new) end))
  extended (slice vs) new = done (slice (Values.add vs (slice new)))
  extended (scalar s) new = panic

-- The position of the last element, or 0.
abbrev pub last_index : {T : Type 0} → ℕ → Items T → ℕ
last_index i no_items = i
last_index i (items v no_items) = i
last_index i (items v (items w vs)) = last_index (suc i) (items w vs)

-- The path of an object's fields.
unfoldable pub field_path : Text → Text
field_path [] = []
field_path (c ∷ cs) = (c ∷ cs) ++ b'.' ∷ []

module _ {S T : Type 0} (map_scalar : T → S) (heap : Heap) where
  -- A scalar is stored where its path is a leaf.
  unfoldable pub map_plain : T → Values S → List ℤ → Option ℕ → Outcome (Mapped S)
  unfolding store
  map_plain v values address none = done (values, [])
  map_plain v values address (some p) = do
    r ← or_panic (get_elem? heap p)
    elim (r.map_index ==ℤ minus_one) [
      | true ↦ done (values, [])
      | false ↦ do
        values ← store values r.map_index (scalar (map_scalar v))
        done (values, (address ++ r.map_index ∷ []) ∷ [])
    ]

  -- An object is mapped, by `fields_mapped`, where its path is known; an array where its path is.
  unfoldable pub map_fields : Text → Outcome (Mapped S) → Values S → Option ℕ → Outcome (Mapped S)
  map_fields path fields_mapped values none = done (values, [])
  map_fields path fields_mapped values (some p) =
      if has_suffix path brackets then panic else fields_mapped

  unfoldable pub map_elements :
      (AttrDictionaryRec → ℕ → Outcome (Mapped S)) → Values S → Option ℕ → Outcome (Mapped S)
  map_elements elements_mapped values none = done (values, [])
  map_elements elements_mapped values (some p) = do
    a ← or_panic (get_elem? heap p)
    elements_mapped a p

  unfoldable mutual
    unfolding map_plain map_fields map_elements store read extended field_path

    pub build_object_map : Text → Json T → Values S → ℕ → List ℤ → Outcome (Mapped S)
    build_object_map path (plain v) values cur address = do
      r ← or_panic (get_elem? heap cur)
      map_plain v values address (lookup path (entries r.dict))
    build_object_map path (object fs) values cur address = do
      r ← or_panic (get_elem? heap cur)
      map_fields path (build_fields (field_path path) fs values cur address) values
          (lookup path (entries r.dict))
    build_object_map path (array vs) values cur address = do
      r ← or_panic (get_elem? heap cur)
      map_elements
          (λ a p. do
            (values, calls) ← build_items a 0 vs values p address
            done (values, calls ++ (address ++ a.map_index ∷ pos (last_index 0 vs) ∷ []) ∷ []))
          values (lookup (path ++ brackets) (entries r.dict))
    build_object_map path other values cur address = panic

    pub build_fields : Text → Fields T → Values S → ℕ → List ℤ → Outcome (Mapped S)
    build_fields path no_fields values cur address = done (values, [])
    build_fields path (fields key v fs) values cur address = do
      (values, calls) ← build_object_map (path ++ key) v values cur address
      (values, more) ← build_fields path fs values cur address
      done (values, calls ++ more)

    -- The elements of an array from position `i` on, each in a frame of its own.
    pub build_items : AttrDictionaryRec → ℕ → Items T → Values S → ℕ → List ℤ → Outcome (Mapped S)
    build_items a i no_items values p address = done (values, [])
    build_items a i (items v vs) values p address = do
      old ← read values a.map_index
      (new, calls) ←
          build_object_map [] v (nils a.num_attributes) p (address ++ a.map_index ∷ pos i ∷ [])
      list ← extended old new
      values ← store values a.map_index list
      (values, more) ← build_items a (suc i) vs values p address
      done (values, calls ++ more)
