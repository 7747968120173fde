-- ===== src/Objectmap/Event/Maps.antt =====
-- buildObjectMap on valid records, and events whose keys have no brackets.
use rulestone.Prelude.{
  ℕ, suc, ◌≡◌, refl, sym, ◌∙◌, subst, ◌⊎◌, inl, inr, true, false, none, some, List, [], ◌∷◌, ◌++◌,
  get_elem?, Option-cases,
}
use rulestone.Prelude.Int.{ℤ, pos}
use rulestone.Prelude.Fault.{Outcome, done, Returns, Returns-bind, ◌>>=◌}
use rulestone.Condition.Operand.{Text}
use rulestone.Objectmap.Strings.{has_suffix, brackets}
use rulestone.Objectmap.Strings.Split.{IsFree, append-IsFree}
use rulestone.Objectmap.TextMap.{lookup}
use rulestone.Objectmap.Path.{minus_one}
use rulestone.Objectmap.Path.Shape.{has_suffix-IsFree, has_suffix-append}
use rulestone.Objectmap.Dictionary.{AttrDictionaryRec, Heap, entries}
use rulestone.Objectmap.Dictionary.Valid.{has_map, IsLeaf, IsEntry, IsValid}
use rulestone.Objectmap.Values.{Values, scalar, nils}
use rulestone.Objectmap.Event.{
  Json, Items, Fields, plain, object, array, other, no_items, items, no_fields, fields, Mapped,
  store, read, last_index, field_path, map_plain, map_fields, map_elements, build_object_map,
  build_fields, build_items,
}
use rulestone.Objectmap.Event.Frames.{
  Fits, FitSlots, fits_scalar, nils-FitSlots, store-FitSlots, read-FitSlots, extended-Fits,
}

-- An event whose keys have no brackets, and whose values are of the kinds that are mapped.
mutual
  pub data IsPlain {T : Type 0} : Json T → Type 0 where
    plain_value : (v : T) → IsPlain (plain v)
    plain_object : {fs : Fields T} → ArePlainFields fs → IsPlain (object fs)
    plain_array : {vs : Items T} → ArePlain vs → IsPlain (array vs)

  pub data ArePlain {T : Type 0} : Items T → Type 0 where
    no_values : ArePlain no_items
    values_plain : {v : Json T} {vs : Items T} → IsPlain v → ArePlain vs → ArePlain (items v vs)

  pub data ArePlainFields {T : Type 0} : Fields T → Type 0 where
    no_keys : ArePlainFields no_fields
    keys_plain :
        {key : Text} {v : Json T} {fs : Fields T}
        → IsFree b'[' key
        → IsPlain v
        → ArePlainFields fs
        → ArePlainFields (fields key v fs)

field_path-IsFree : (path : Text) → IsFree b'[' path → IsFree b'[' (field_path path)
unfolding field_path
field_path-IsFree [] h = tt
field_path-IsFree (c ∷ cs) h = append-IsFree b'[' (c ∷ cs) (b'.' ∷ []) h (refl, tt)

module _ {S T : Type 0} (map_scalar : T → S) (heap : Heap) (valid : IsValid heap) where
  abbrev pub Fitting : List ℕ → Mapped S → Type 0
  Fitting index r = FitSlots heap index r.0

  map_plain-Fitting :
      (v : T) (values : Values S) (address : List ℤ) (path : Text) (cur : ℕ) (c : AttrDictionaryRec)
      (p : ℕ)
      → IsFree b'[' path
      → FitSlots heap c.dict_index values
      → (e : IsEntry heap cur c.dict_index path p)
      → ((e.target.map_index ≡ minus_one) × (has_suffix path brackets ≡ false))
        ⊎ IsLeaf c.dict_index path p e.target
      → Returns (Fitting c.dict_index) (map_plain map_scalar heap v values address (some p))
  unfolding map_plain
  map_plain-Fitting v values address path cur c p free fit e (inl (parent, bare)) =
      rw e.found (rw parent fit)
  map_plain-Fitting v values address path cur c p free fit e (inr leaf) = rw e.found (
      rw leaf.numbered (
        Returns-bind (FitSlots heap c.dict_index) (Fitting c.dict_index) _ _
          (store-FitSlots heap leaf.at p (scalar (map_scalar v)) fit leaf.listed
            (fits_scalar e.target e.found (leaf.boxed ∙ has_suffix-IsFree path free)))
          (λ values' fit'. fit')))

  missing_plain :
      (v : T) (values : Values S) (address : List ℤ) (c : AttrDictionaryRec)
      → FitSlots heap c.dict_index values
      → Returns (Fitting c.dict_index) (map_plain map_scalar heap v values address none)
  unfolding map_plain
  missing_plain v values address c fit = fit

  module _ (path : Text) (rest : Outcome (Mapped S)) (values : Values S)
      (c : AttrDictionaryRec) where
    missing_object :
        FitSlots heap c.dict_index values
        → Returns (Fitting c.dict_index) (map_fields map_scalar heap path rest values none)
    unfolding map_fields
    missing_object fit = fit

    known_object :
        (p : ℕ)
        → IsFree b'[' path
        → Returns (Fitting c.dict_index) rest
        → Returns (Fitting c.dict_index) (map_fields map_scalar heap path rest values (some p))
    unfolding map_fields
    known_object p free r = rw (has_suffix-IsFree path free) r

  module _ (rest : AttrDictionaryRec → ℕ → Outcome (Mapped S)) (values : Values S)
      (c : AttrDictionaryRec) where
    missing_array :
        FitSlots heap c.dict_index values
        → Returns (Fitting c.dict_index) (map_elements map_scalar heap rest values none)
    unfolding map_elements
    missing_array fit = fit

    known_array :
        (p : ℕ) (a : AttrDictionaryRec)
        → get_elem? heap p ≡ some a
        → Returns (Fitting c.dict_index) (rest a p)
        → Returns (Fitting c.dict_index) (map_elements map_scalar heap rest values (some p))
    unfolding map_elements
    known_array p a found r = rw found r

  -- The call of an array after those of its elements.
  abbrev array_calls : Items T → List ℤ → AttrDictionaryRec → Mapped S → Outcome (Mapped S)
  array_calls vs address a r =
      done (r.0, r.1 ++ (address ++ a.map_index ∷ pos (last_index 0 vs) ∷ []) ∷ [])

  abbrev elements_mapped : Items T → Values S → List ℤ → AttrDictionaryRec → ℕ → Outcome (Mapped S)
  elements_mapped vs values address a p =
      build_items map_scalar heap a 0 vs values p address >>= array_calls vs address a

  -- The record of an array.
  array-IsLeaf :
      (path : Text) (p : ℕ) (index : List ℕ) (e : AttrDictionaryRec)
      → ((e.map_index ≡ minus_one) × (has_suffix (path ++ brackets) brackets ≡ false))
        ⊎ IsLeaf index (path ++ brackets) p e
      → IsLeaf index (path ++ brackets) p e
  array-IsLeaf path p index e (inl (parent, bare)) =
      let clash : true ≡ false = sym (has_suffix-append path) ∙ bare in absurd (cc)
  array-IsLeaf path p index e (inr leaf) = leaf

  mutual
    unfolding build_object_map

    pub build-Fitting :
        (path : Text) (v : Json T) (values : Values S) (cur : ℕ) (c : AttrDictionaryRec)
        (address : List ℤ)
        → get_elem? heap cur ≡ some c
        → IsFree b'[' path
        → IsPlain v
        → FitSlots heap c.dict_index values
        → Returns
            (Fitting c.dict_index)
            (build_object_map map_scalar heap path v values cur address)
    build-Fitting path (plain v) values cur c address here free p fit =
        rw here (elim (Option-cases (lookup path (entries c.dict))) [
          | inl missing ↦ rw missing (missing_plain v values address c fit)
          | inr (q, found) ↦
              let e = (valid cur c here).dict path q found in
              rw found (map_plain-Fitting v values address path cur c q free fit e e.kind)
        ])
    build-Fitting path (object fs) values cur c address here free (plain_object pf) fit =
        rw here (elim (Option-cases (lookup path (entries c.dict))) [
          | inl missing ↦ rw missing (
              missing_object path
                (build_fields map_scalar heap (field_path path) fs values cur address) values c fit)
          | inr (q, found) ↦ rw found (
              known_object path
                (build_fields map_scalar heap (field_path path) fs values cur address) values c q
                free
                (build_fields-Fitting (field_path path) fs values cur c address here
                  (field_path-IsFree path free) pf fit))
        ])
    build-Fitting path (array vs) values cur c address here free (plain_array pv) fit =
        rw here (elim (Option-cases (lookup (path ++ brackets) (entries c.dict))) [
          | inl missing ↦
              rw missing (missing_array (elements_mapped vs values address) values c fit)
          | inr (q, found) ↦
              let e = (valid cur c here).dict (path ++ brackets) q found in
              let leaf = array-IsLeaf path q c.dict_index e.target e.kind in
              rw found (
                known_array (elements_mapped vs values address) values c q e.target e.found (
                  Returns-bind (Fitting c.dict_index) (Fitting c.dict_index) _
                    (array_calls vs address e.target)
                    (build_items-Fitting e.target 0 vs values q c.dict_index leaf.at address
                      leaf.numbered leaf.listed e.found (leaf.boxed ∙ has_suffix-append path) pv
                      fit)
                    (λ (values', calls) fit'. fit')))
        ])
    build-Fitting path other values cur c address here free p fit = elim p [ ]

    build_fields-Fitting :
        (path : Text) (fs : Fields T) (values : Values S) (cur : ℕ) (c : AttrDictionaryRec)
        (address : List ℤ)
        → get_elem? heap cur ≡ some c
        → IsFree b'[' path
        → ArePlainFields fs
        → FitSlots heap c.dict_index values
        → Returns (Fitting c.dict_index) (build_fields map_scalar heap path fs values cur address)
    build_fields-Fitting path no_fields values cur c address here free p fit = fit
    build_fields-Fitting path (fields key v fs) values cur c address here free
          (keys_plain key_free pv pf) fit =
        Returns-bind (Fitting c.dict_index) (Fitting c.dict_index) _ _
          (build-Fitting (path ++ key) v values cur c address here
            (append-IsFree b'[' path key free key_free) pv fit)
          (λ (values', calls) fit'.
            Returns-bind (Fitting c.dict_index) (Fitting c.dict_index) _ _
              (build_fields-Fitting path fs values' cur c address here free pf fit')
              (λ (values'', more) fit''. fit''))

    build_items-Fitting :
        (a : AttrDictionaryRec) (i : ℕ) (vs : Items T) (values : Values S) (p : ℕ) (index : List ℕ)
        (at : ℕ) (address : List ℤ)
        → a.map_index ≡ pos at
        → get_elem? index at ≡ some p
        → get_elem? heap p ≡ some a
        → has_map a ≡ true
        → ArePlain vs
        → FitSlots heap index values
        → Returns (Fitting index) (build_items map_scalar heap a i vs values p address)
    build_items-Fitting a i no_items values p index at address num listed found mapped pv fit = fit
    build_items-Fitting a i (items v vs) values p index at address num listed found mapped
          (values_plain pv pvs) fit =
        Returns-bind (Fits heap p) (Fitting index) _ _
          (subst (λ m. Returns (Fits heap p) (read values m)) (sym num)
            (read-FitSlots heap at p fit listed))
          (λ old fit_old.
            Returns-bind (Fitting a.dict_index) (Fitting index) _ _
              (build-Fitting [] v (nils a.num_attributes) p a (address ++ a.map_index ∷ pos i ∷ [])
                found tt pv
                (subst (λ n. FitSlots {S = S} heap a.dict_index (nils n))
                  (sym (valid p a found).count) (nils-FitSlots heap a.dict_index)))
              (λ (new, calls) fit_new.
                Returns-bind (Fits heap p) (Fitting index) _ _
                  (extended-Fits heap new a found mapped fit_old fit_new)
                  (λ list fit_list.
                    Returns-bind (FitSlots heap index) (Fitting index) _ _
                      (subst (λ m. Returns (FitSlots heap index) (store values m list)) (sym num)
                        (store-FitSlots heap at p list fit listed fit_list))
                      (λ values' fit'.
                        Returns-bind (Fitting index) (Fitting index) _ _
                          (build_items-Fitting a (suc i) vs values' p index at address num listed
                            found mapped pvs fit')
                          (λ (values'', more) fit''. fit'')))))
