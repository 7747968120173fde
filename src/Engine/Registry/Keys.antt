-- ===== src/Engine/Registry/Keys.antt =====
-- Which evaluators are registered for a key, after a registration and after its removal.
use rulestone.Prelude.{
  ◌≡◌, inl, inr, refl, ap, sym, subst, ◌∙◌, Bool, true, false, not, ◌&&◌, ◌||◌, Option, none, some,
  List, [], ◌∷◌, ◌==◌, ==_iff, arith, if◌then◌else◌, Option-cases,
}
use rulestone.Immutable.Set.{Hashset}
use rulestone.Immutable.Set.Laws.{Laws}
use rulestone.Condition.Operand.{Text}
use rulestone.Condition.Operand.Numerals.{text_eq}
use rulestone.Objectmap.TextMap.{lookup, put, delete, lookup-put, lookup-delete, text_eq_iff}
use rulestone.Engine.Registry.{RecRef, record_element, set_of, store, unregister_keys}

none_ne_some : {A : Type 0} {a : A} → none ≡ some a → ⊥
none_ne_some h = cc

module _ (h : Hashset) where
  abbrev pub Sets : Type 0
  Sets = List (Text × h.Table RecRef)

  abbrev in_set : Option (h.Table RecRef) → RecRef → Bool
  in_set none k = false
  in_set (some t) k = h.has RecRef t k

  -- The evaluator is registered for the key.
  unfoldable pub registered : Sets → Text → RecRef → Bool
  registered m key k = in_set (lookup key m) k

abbrev pub same : RecRef → RecRef → Bool
same p k = record_element.equals p k

abbrev pub key_in : List Text → Text → Bool
key_in [] j = false
key_in (key ∷ keys) j = text_eq key j || key_in keys j

module _ {h : Hashset} (laws : Laws h RecRef record_element) where
  abbrev pub AllTables : Sets h → Type 0
  AllTables m = (key : Text) (t : h.Table RecRef) → lookup key m ≡ some t → laws.IsTable t

  registered-put :
      (key j : Text) (k : RecRef) (t : h.Table RecRef) (m : Sets h)
      → registered h (put key t m) j k
        ≡ (if text_eq key j then h.has RecRef t k else registered h m j k)
  unfolding registered
  registered-put key j k t m = rw (lookup-put key j t m) (ground arith)

  registered-delete :
      (key j : Text) (k : RecRef) (m : Sets h)
      → registered h (delete key m) j k ≡ (if text_eq key j then false else registered h m j k)
  unfolding registered
  registered-delete key j k m = rw (lookup-delete key j m) (ground arith)

  put-AllTables :
      (key : Text) (t : h.Table RecRef) (m : Sets h)
      → laws.IsTable t
      → AllTables m
      → AllTables (put key t m)
  put-AllTables key t m is all j t' e = at (text_eq key j) (sym (lookup-put key j t m) ∙ e)
    where
      at : (b : Bool) → (if b then some t else lookup j m) ≡ some t' → laws.IsTable t'
      at true u = let same_table : t ≡ t' = cc in subst laws.IsTable same_table is
      at false u = all j t' u

  delete-AllTables : (key : Text) (m : Sets h) → AllTables m → AllTables (delete key m)
  delete-AllTables key m all j t' e = at (text_eq key j) (sym (lookup-delete key j m) ∙ e)
    where
      at : (b : Bool) → (if b then none else lookup j m) ≡ some t' → laws.IsTable t'
      at true u = absurd (none_ne_some u)
      at false u = all j t' u

  set_of-has :
      (key : Text) (k : RecRef) (m : Sets h)
      → AllTables m
      → laws.IsTable (set_of h (lookup key m))
        × (h.has RecRef (set_of h (lookup key m)) k ≡ registered h m key k)
  unfolding set_of registered
  set_of-has key k m all = elim (Option-cases (lookup key m)) [
    | inl missing ↦ rw missing (laws.of-IsTable, laws.has-of k)
    | inr (t, found) ↦ rw found (all key t found, refl)
  ]

  registered-same :
      (key j : Text) (k : RecRef) (m : Sets h)
      → text_eq key j ≡ true
      → registered h m key k ≡ registered h m j k
  registered-same key j k m e = ap (λ t. registered h m t k) ((text_eq_iff key j).0 e)

  -- Registering for one more key.
  pub registered-register :
      (key j : Text) (p k : RecRef) (m : Sets h)
      → AllTables m
      → AllTables (put key (h.put RecRef (set_of h (lookup key m)) p) m)
        × (registered h (put key (h.put RecRef (set_of h (lookup key m)) p) m) j k
            ≡ ((text_eq key j && same p k) || registered h m j k))
  registered-register key j p k m all =
      let (is, has_k) = set_of-has key k m all in
      (
        put-AllTables key _ m (laws.put-IsTable _ p is) all,
        registered-put key j k _ m
            ∙ rw (laws.has-put (set_of h (lookup key m)) p k is, has_k)
                (ground (arith, registered-same key j k m)),
      )

  -- The table that is left at a key, deleted when it is empty.
  registered-store :
      (key j : Text) (k : RecRef) (t : h.Table RecRef) (m : Sets h)
      → laws.IsTable t
      → AllTables m
      → AllTables (store h key t m)
        × (registered h (store h key t m) j k
            ≡ (if text_eq key j then h.has RecRef t k else registered h m j k))
  unfolding store
  registered-store key j k t m is all = at (h.size RecRef t == 0) refl
    where
      at :
          (b : Bool)
          → (h.size RecRef t == 0) ≡ b
          → AllTables (if b then delete key m else put key t m)
            × (registered h (if b then delete key m else put key t m) j k
                ≡ (if text_eq key j then h.has RecRef t k else registered h m j k))
      at true e = (
        delete-AllTables key m all,
        registered-delete key j k m ∙ rw (laws.size_zero t k is ((==_iff _ _).0 e)),
      )
      at false e = (put-AllTables key t m is all, registered-put key j k t m)

  unregister_missing :
      (key : Text) (keys : List Text) (p : RecRef) (m : Sets h)
      → lookup key m ≡ none
      → unregister_keys h (key ∷ keys) p m ≡ unregister_keys h keys p m
  unfolding unregister_keys
  unregister_missing key keys p m e = rw (e, unregister_keys)

  unregister_found :
      (key : Text) (keys : List Text) (p : RecRef) (m : Sets h) (t : h.Table RecRef)
      → lookup key m ≡ some t
      → unregister_keys h (key ∷ keys) p m
        ≡ unregister_keys h keys p (store h key (h.remove RecRef t p) m)
  unfolding unregister_keys
  unregister_found key keys p m t e = rw (e, unregister_keys)

  pub registered-lookup :
      (key : Text) (k : RecRef) (m : Sets h) (o : Option (h.Table RecRef))
      → lookup key m ≡ o
      → registered h m key k ≡ in_set h o k
  unfolding registered
  registered-lookup key k m o e = ap (λ x. in_set h x k) e

  -- Unregistering at the keys.
  pub registered-unregister :
      (keys : List Text) (j : Text) (p k : RecRef) (m : Sets h)
      → AllTables m
      → registered h (unregister_keys h keys p m) j k
        ≡ (not (key_in keys j && same p k) && registered h m j k)
  unfolding unregister_keys
  registered-unregister [] j p k m all = refl
  registered-unregister (key ∷ keys) j p k m all = elim (Option-cases (lookup key m)) [
    | inl missing ↦
        ap (λ n. registered h n j k) (unregister_missing key keys p m missing)
        ∙ registered-unregister keys j p k m all
        ∙ ground (arith, registered-same key j k m, registered-lookup key k m none missing)
    | inr (t, found) ↦
        let is = all key t found in
        let (all', stored) = registered-store key j k _ m (laws.remove-IsTable t p is) all in
        ap (λ n. registered h n j k) (unregister_found key keys p m t found)
        ∙ registered-unregister keys j p k _ all'
        ∙ rw (stored, laws.has-remove t p k is)
            (ground (arith, registered-same key j k m, registered-lookup key k m (some t) found))
  ]
