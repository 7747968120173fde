-- ===== src/Objectmap/Pool.antt =====
-- The pool of events: NewObjectAttributeMap, FreeObjects and MapObject. A pointer to an event is a
-- position in a list.
pub mod Fits
use rulestone.Prelude.{
  ℕ, zero, suc, Option, none, some, List, [], ◌∷◌, ◌++◌, ltb, length, get_elem?, set, if◌then◌else◌,
}
use rulestone.Prelude.Int.{ℤ}
use rulestone.Prelude.Fault.{Outcome, done, panic, or_panic, ◌>>=◌}
use rulestone.Objectmap.Dictionary.{AttrDictionaryRec, Heap}
use rulestone.Objectmap.Values
use rulestone.Objectmap.Values.{Values, nil, end, nils}
use rulestone.Objectmap.Event.{Json, build_object_map}

-- ObjectAttributeMap, whose dictionary is always the root: its values and their capacity.
pub record ObjectAttributeMap (S : Type 0) : Type 0 where
  pub values : Values S
  pub capacity : ℕ

-- The events that were made, those that the pool holds, and objectList.
pub record Pool (S : Type 0) : Type 0 where
  pub objects : List (ObjectAttributeMap S)
  pub object_pool : List ℕ
  pub object_list : List ℕ

abbrev remove_at : List ℕ → ℕ → List ℕ
remove_at [] i = []
remove_at (p ∷ ps) zero = ps
remove_at (p ∷ ps) (suc i) = p ∷ remove_at ps i

module _ {S : Type 0} where
  -- &ObjectAttributeMap{Values: make([]interface{}, 0, 100)}
  abbrev pub made : ObjectAttributeMap S
  made = record { values = end; capacity = 100 }

  -- for i := 0; i < n; i++ { values = append(values, nil) }
  unfoldable pub append_nils : ℕ → Values S → Values S
  append_nils zero vs = vs
  append_nils (suc n) vs = append_nils n (Values.add vs nil)

  -- The object as the caller gets it: its values are made anew if they are too few, or cleared.
  unfoldable pub reset : ℕ → ObjectAttributeMap S → ObjectAttributeMap S
  unfolding append_nils
  reset num o =
      if ltb o.capacity num
      then record { values = nils num; capacity = num }
      else record o { values = append_nils num end }

  -- sync.Pool's Get: `choice` is which of the pooled objects it hands out, if any.
  unfoldable pub take_object : Option ℕ → Pool S → Outcome (Pool S × ℕ)
  take_object none pool =
      done (record pool { objects = pool.objects ++ made ∷ [] }, length pool.objects)
  take_object (some choice) pool = do
    p ← or_panic (get_elem? pool.object_pool choice)
    done (record pool { object_pool = remove_at pool.object_pool choice }, p)

  unfoldable pub new_object_attribute_map : ℕ → Option ℕ → Pool S → Outcome (Pool S × ℕ)
  unfolding take_object reset
  new_object_attribute_map num choice pool = do
    (pool, p) ← take_object choice pool
    o ← or_panic (get_elem? pool.objects p)
    done (
      record pool {
        objects = set pool.objects p (reset num o);
        object_list = pool.object_list ++ p ∷ [];
      },
      p,
    )

  unfoldable pub free_objects : Pool S → Pool S
  free_objects pool = record pool {
    object_pool = pool.object_pool ++ pool.object_list;
    object_list = [];
  }

module _ {S T : Type 0} (map_scalar : T → S) where
  -- The event, and the addresses that the callback was called with.
  unfoldable pub map_object :
      Heap → Json T → Option ℕ → Pool S → Outcome (Pool S × ℕ × List (List ℤ))
  unfolding new_object_attribute_map build_object_map
  map_object heap v choice pool = do
    root ← or_panic (get_elem? heap 0)
    (pool, p) ← new_object_attribute_map root.num_attributes choice pool
    o ← or_panic (get_elem? pool.objects p)
    (values, calls) ← build_object_map map_scalar heap [] v o.values 0 []
    done (record pool { objects = set pool.objects p (record o { values = values }) }, p, calls)
