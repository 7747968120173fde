-- ===== src/Objectmap/Values.antt =====
-- The values that an event is mapped to, and the reads of them: GetNestedAttributeByAddress,
-- GetAttributeByAddress, GetAttribute and GetNumElementsAtAddress. `S` is what MapScalar gives.
use rulestone.Prelude.{ℕ, zero, suc, Option, none, some, List, [], ◌∷◌, get_elem?}
use rulestone.Prelude.Int.{ℤ, pos, negsuc}
use rulestone.Prelude.Fault.{Outcome, done, panic, or_panic, ◌>>=◌}
use rulestone.Condition.Operand.{Text}
use rulestone.Objectmap.Path.{Result, ok, err, not_available, not_an_array}
use rulestone.Objectmap.Dictionary.{Dictionary, report, attribute_path_to_address}
use rulestone.Objectmap.Address.{address_to_full_path}

-- An interface{}: nil, a scalar, or a slice of them.
mutual
  pub data Value (S : Type 0) : Type 0 where
    nil : Value S
    scalar : S → Value S
    slice : Values S → Value S

  pub data Values (S : Type 0) : Type 0 where
    end : Values S
    item : Value S → Values S → Values S

module _ {S : Type 0} where
  unfoldable pub count : Values S → ℕ
  count end = 0
  count (item v vs) = suc (count vs)

  unfoldable pub get : Values S → ℕ → Option (Value S)
  get end i = none
  get (item v vs) zero = some v
  get (item v vs) (suc i) = get vs i

  -- A write out of bounds changes nothing.
  unfoldable pub put : Values S → ℕ → Value S → Values S
  put end i w = end
  put (item v vs) zero w = item w vs
  put (item v vs) (suc i) w = item v (put vs i w)

  unfoldable pub add : Values S → Value S → Values S
  add end w = item w end
  add (item v vs) w = item v (add vs w)

  -- make([]interface{}, n)
  unfoldable pub nils : ℕ → Values S
  nils zero = end
  nils (suc n) = item nil (nils n)

  -- A position past the end gives nil, a negative one panics.
  unfoldable pub get_nested_attribute_by_address : Value S → List ℤ → Outcome (Value S)
  get_nested_attribute_by_address v [] = done v
  get_nested_attribute_by_address (slice vs) (pos i ∷ address) = elim (get vs i) [
    | some v ↦ get_nested_attribute_by_address v address
    | none ↦ done nil
  ]
  get_nested_attribute_by_address (slice vs) (negsuc i ∷ address) = panic
  get_nested_attribute_by_address nil (s ∷ address) = done nil
  get_nested_attribute_by_address (scalar v) (s ∷ address) = done nil

  -- The root of the records is the dictionary of every event.
  unfoldable pub available : Dictionary → List ℤ → Value S → Outcome (Dictionary × Result (Value S))
  unfolding report
  available d address nil = do
    path ← address_to_full_path d.heap 0 address
    done (record d { ctx = report (not_available path) d.ctx }, err (not_available path))
  available d address (scalar v) = done (d, ok (scalar v))
  available d address (slice vs) = done (d, ok (slice vs))

  unfoldable pub get_attribute_by_address :
      Dictionary → List ℤ → Value S → Outcome (Dictionary × Result (Value S))
  unfolding get_nested_attribute_by_address available
  get_attribute_by_address d address frame = do
    result ← get_nested_attribute_by_address frame address
    available d address result

  unfoldable pub by_address :
      Value S → Dictionary × Result (List ℤ) → Outcome (Dictionary × Result (Value S))
  unfolding get_attribute_by_address
  by_address frame (d, ok address) = get_attribute_by_address d address frame
  by_address frame (d, err e) = done (d, err e)

  unfoldable pub get_attribute :
      Dictionary → Values S → Text → Outcome (Dictionary × Result (Value S))
  unfolding by_address
  get_attribute d values attr_path = do
    r ← attribute_path_to_address d 0 attr_path
    by_address (slice values) r

  unfoldable pub elements_of :
      List ℤ → Dictionary × Result (Value S) → Outcome (Dictionary × Result ℕ)
  unfolding count
  elements_of address (d, ok (slice vs)) = done (d, ok (count vs))
  elements_of address (d, ok v) = do
    path ← address_to_full_path d.heap 0 address
    done (d, err (not_an_array path))
  elements_of address (d, err e) = done (d, err e)

  -- `parent` is ParentParameterIndex, an index into the frames.
  unfoldable pub get_num_elements_at_address :
      Dictionary → List ℤ → ℕ → List (Value S) → Outcome (Dictionary × Result ℕ)
  unfolding get_attribute_by_address elements_of
  get_num_elements_at_address d address parent frames = do
    frame ← or_panic (get_elem? frames parent)
    r ← get_attribute_by_address d address frame
    elements_of address r
