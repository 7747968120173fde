-- ===== src/Objectmap/Pool/Fits.antt =====
-- MapObject: what an event from the pool is mapped to.
use rulestone.Prelude.{
  ℕ, zero, suc, ◌+◌, ◌<◌, ◌≡◌, refl, ap, sym, ◌∙◌, subst, Option, none, some, List, [], ◌∷◌, ltb,
  length, length-append, get_elem?, get_elem?-eq-get_or, get_or, get_elem?-set_self,
  lt-length_of_get_elem?, Bool-cases, inl, inr, arith,
}
use rulestone.Prelude.Int.{ℤ}
use rulestone.Prelude.Fault.{Returns, Returns-bind}
use rulestone.Objectmap.Dictionary.{AttrDictionaryRec, Heap}
use rulestone.Objectmap.Dictionary.Valid.{IsValid}
use rulestone.Objectmap.Values
use rulestone.Objectmap.Values.{Values, nil, end, nils}
use rulestone.Objectmap.Event.{Json}
use rulestone.Objectmap.Event.Frames.{FitSlots, nils-FitSlots}
use rulestone.Objectmap.Event.Maps.{IsPlain, Fitting, build-Fitting}
use rulestone.Objectmap.Pool.{
  ObjectAttributeMap, Pool, made, append_nils, reset, take_object, new_object_attribute_map,
  map_object,
}

module _ {S : Type 0} where
  add-nils : (n : ℕ) → Values.add (nils {S = S} n) nil ≡ nils (suc n)
  unfolding nils Values.add
  add-nils zero = refl
  add-nils (suc n) = ap (Values.item nil) (add-nils n)

  append_nils-eq-nils : (n k : ℕ) → append_nils n (nils {S = S} k) ≡ nils (n + k)
  unfolding append_nils
  append_nils-eq-nils zero k = ap nils (omega arith)
  append_nils-eq-nils (suc n) k =
      ap (append_nils n) (add-nils k) ∙ append_nils-eq-nils n (suc k) ∙ ap nils (omega arith)

  nils-zero : nils {S = S} 0 ≡ end
  unfolding nils
  nils-zero = refl

  -- A pooled event and a new one have the same values: nil for each attribute.
  reset_values : (num : ℕ) (o : ObjectAttributeMap S) → (reset num o).values ≡ nils num
  unfolding reset
  reset_values num o = elim (Bool-cases (ltb o.capacity num)) [
    | inl few ↦ rw few refl
    | inr enough ↦
        rw enough
          (ap (append_nils num) (sym nils-zero) ∙ append_nils-eq-nils num 0 ∙ ap nils (omega arith))
  ]

  -- The pooled pointer that is handed out is one of an event.
  abbrev pub IsChoice : Option ℕ → Pool S → Type 0
  IsChoice none pool = Unit {0}
  IsChoice (some i) pool =
      (p : ℕ) × (get_elem? pool.object_pool i ≡ some p) × (p < length pool.objects)

  IsTaken : Pool S × ℕ → Type 0
  IsTaken r = r.1 < length r.0.objects

  take_object-IsTaken :
      (choice : Option ℕ) (pool : Pool S)
      → IsChoice choice pool
      → Returns IsTaken (take_object choice pool)
  unfolding take_object IsTaken
  take_object-IsTaken none pool h = omega (arith, length-append pool.objects (made ∷ []))
  take_object-IsTaken (some i) pool h = rw h.1 h.2

  -- An event with a nil value for each attribute.
  abbrev IsNew : ℕ → Pool S × ℕ → Type 0
  IsNew num r =
      (o : ObjectAttributeMap S) × (get_elem? r.0.objects r.1 ≡ some o) × (o.values ≡ nils num)

  IsNew-IsNew :
      (num : ℕ) (choice : Option ℕ) (pool : Pool S)
      → IsChoice choice pool
      → Returns (IsNew num) (new_object_attribute_map num choice pool)
  unfolding new_object_attribute_map IsTaken
  IsNew-IsNew num choice pool h =
      Returns-bind IsTaken (IsNew num) _ _ (take_object-IsTaken choice pool h) (λ (pool', p) inside.
        rw (get_elem?-eq-get_or pool'.objects p made inside) (
          reset num (get_or pool'.objects p made),
          get_elem?-set_self pool'.objects p _ inside,
          reset_values num (get_or pool'.objects p made),
        ))

  -- The event of a pool has values that fit the records of the root.
  abbrev pub IsMapped : Heap → List ℕ → Pool S × ℕ × List (List ℤ) → Type 0
  IsMapped heap index r =
      (o : ObjectAttributeMap S) × (get_elem? r.0.objects r.1 ≡ some o)
      × FitSlots heap index o.values

module _ {S T : Type 0} (map_scalar : T → S) where
  -- For valid records and an event whose keys have no brackets and whose values are objects, arrays and
  -- scalars that are mapped, MapObject returns without a panic, whichever event the pool hands out: the
  -- event's values have a slot for each attribute, that of an array with nil or a slice of such values
  -- for its elements, and any other with nil or a scalar.
  pub map_object-IsMapped :
      (heap : Heap) (root : AttrDictionaryRec) (v : Json T) (choice : Option ℕ) (pool : Pool S)
      → IsValid heap
      → get_elem? heap 0 ≡ some root
      → IsPlain v
      → IsChoice choice pool
      → Returns (IsMapped heap root.dict_index) (map_object map_scalar heap v choice pool)
  unfolding map_object
  map_object-IsMapped heap root v choice pool valid here plain chosen = rw here (
      Returns-bind (IsNew root.num_attributes) (IsMapped heap root.dict_index) _ _
        (IsNew-IsNew root.num_attributes choice pool chosen)
        (λ (pool', p) (o, found, values). rw found (
          Returns-bind (Fitting map_scalar heap valid root.dict_index)
            (IsMapped heap root.dict_index) _ _
            (build-Fitting map_scalar heap valid [] v o.values 0 root [] here tt plain (
              subst (FitSlots heap root.dict_index)
                (ap nils (sym (valid 0 root here).count) ∙ sym values)
                (nils-FitSlots heap root.dict_index)))
            (λ (values', calls) fit. (
              record o { values = values' },
              get_elem?-set_self pool'.objects p _ (lt-length_of_get_elem? pool'.objects p found),
              fit,
            )))))
