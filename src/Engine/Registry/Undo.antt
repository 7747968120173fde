-- ===== src/Engine/Registry/Undo.antt =====
-- A new evaluator that is registered for some addresses, discarded and unregistered, as the one of a
-- condition that has been seen before.
use mathlib.Core.List.{append-nil, append_assoc}
use rulestone.Prelude.{
  ◌-◌, ◌≡◌, refl, ap, sym, ◌∙◌, true, false, ◌&&◌, ◌||◌, Option, some, List, [], ◌∷◌, ◌++◌, length,
  length-append, get_elem?, get_elem?-last, get_elem?-set_self, lt-length_of_get_elem?, take, map,
  arith,
}
use rulestone.Prelude.Int.{ℤ, ==ℤ_iff}
use rulestone.Prelude.Fault.{Outcome, done, ◌>>=◌}
use rulestone.Immutable.Set.{Hashset}
use rulestone.Immutable.Set.Laws.{Laws}
use rulestone.Condition.Operand.{Text}
use rulestone.Objectmap.Address.{address_match_key}
use rulestone.Engine.Registry.{
  RecRef, EvalCategoryRec, record_element, CompareCondRepo, new_eval_category_rec,
  discard_eval_category_rec, register_key, register_cat_evaluator_for_address, unregister_keys,
  unregister_cat_evaluator,
}
use rulestone.Engine.Registry.Keys.{
  registered, same, key_in, AllTables, registered-register, registered-unregister,
}

take-last : {A : Type 0} (xs : List A) (y : A) → take (length xs) (xs ++ y ∷ []) ≡ xs
take-last [] y = refl
take-last (x ∷ xs) y = ap (λ zs. x ∷ zs) (take-last xs y)

module _ {h : Hashset} {R : Type 0} where
  -- The registrations that an evaluator gets while its condition is read.
  abbrev pub register_addresses :
      List (List ℤ) → RecRef → CompareCondRepo h R → Outcome (CompareCondRepo h R)
  register_addresses [] p repo = done repo
  register_addresses (address ∷ addresses) p repo = do
    repo ← register_cat_evaluator_for_address address (some p) repo
    register_addresses addresses p repo

  -- What processCompareCondition does with an evaluator that it does not need.
  abbrev pub drop_evaluator : RecRef → CompareCondRepo h R → Outcome (CompareCondRepo h R)
  drop_evaluator p repo = do
    repo ← discard_eval_category_rec p repo
    unregister_cat_evaluator (some p) repo

  module _ (laws : Laws h RecRef record_element) where
    abbrev Registers : List Text → RecRef → CompareCondRepo h R → CompareCondRepo h R → Type 0
    Registers keys p repo repo' =
        AllTables laws repo'.attribute_to_compare_cond_record
        × (repo'.eval_category_recs ≡ repo.eval_category_recs)
        × ((j : Text) (k : RecRef)
            → registered h repo'.attribute_to_compare_cond_record j k ≡ (
                (key_in keys j && same p k)
                || registered h repo.attribute_to_compare_cond_record j k))

    -- One registration more.
    register_key-ends :
        (key : Text) (p : RecRef) (repo : CompareCondRepo h R) (r : EvalCategoryRec R)
        → get_elem? repo.records p.position ≡ some r
        → AllTables laws repo.attribute_to_compare_cond_record
        → (repo' : CompareCondRepo h R) × (register_key key p repo ≡ done repo')
          × (get_elem? repo'.records p.position
              ≡ some (record r { attr_keys = r.attr_keys ++ key ∷ [] }))
          × Registers (key ∷ []) p repo repo'
    unfolding register_key
    register_key-ends key p repo r is all = (
      _,
      rw is refl,
      get_elem?-set_self repo.records p.position _
          (lt-length_of_get_elem? repo.records p.position is),
      (
        (registered-register laws key [] p p _ all).0,
        refl,
        λ j k. (registered-register laws key j p k _ all).1 ∙ ground arith,
      ),
    )

    register_addresses-ends :
        (addresses : List (List ℤ)) (p : RecRef) (repo : CompareCondRepo h R)
        (r : EvalCategoryRec R)
        → get_elem? repo.records p.position ≡ some r
        → AllTables laws repo.attribute_to_compare_cond_record
        → (repo' : CompareCondRepo h R) × (r' : EvalCategoryRec R) × (register_addresses addresses p
              repo
            ≡ done repo')
          × (get_elem? repo'.records p.position ≡ some r')
          × (r'.attr_keys ≡ r.attr_keys ++ map address_match_key addresses)
          × Registers (map address_match_key addresses) p repo repo'
    unfolding register_cat_evaluator_for_address
    register_addresses-ends [] p repo r is all =
        (repo, r, refl, is, sym (append-nil r.attr_keys), (all, refl, λ j k. refl))
    register_addresses-ends (address ∷ addresses) p repo r is all =
        let (repo₁, first, is₁, (all₁, recs₁, reg₁)) =
          register_key-ends (address_match_key address) p repo r is all in
        let (repo₂, r₂, rest, is₂, keys₂, (all₂, recs₂, reg₂)) =
          register_addresses-ends addresses p repo₁ _ is₁ all₁ in
        (
          repo₂,
          r₂,
          rw first rest,
          is₂,
          keys₂
              ∙ append_assoc r.attr_keys (address_match_key address ∷ [])
                  (map address_match_key addresses),
          (all₂, recs₂ ∙ recs₁, λ j k. reg₂ j k ∙ rw (reg₁ j k) (ground arith)),
        )

    -- The record that was made last is discarded.
    discard-last :
        (recs : List RecRef) (p : RecRef) (repo : CompareCondRepo h R)
        → repo.eval_category_recs ≡ recs ++ p ∷ []
        → discard_eval_category_rec p repo ≡ done (record repo { eval_category_recs = recs })
    unfolding discard_eval_category_rec
    discard-last recs p repo e =
        let n : length repo.eval_category_recs - 1 ≡ length recs =
          ap (λ xs. length xs - 1) e ∙ omega (arith, length-append recs (p ∷ [])) in
        let last : get_elem? repo.eval_category_recs (length recs) ≡ some p =
          ap (λ xs. get_elem? xs (length recs)) e ∙ get_elem?-last recs p in
        let before : take (length recs) repo.eval_category_recs ≡ recs =
          ap (take (length recs)) e ∙ take-last recs p in
        rw (n, last, (==ℤ_iff p.cat p.cat).1 refl, before) refl

    -- In a repository whose sets are hash sets, a new evaluator whose category no registered record
    -- has, and that is discarded and unregistered right after it was registered for some addresses,
    -- leaves the list of the records, and what is registered for each key, as they were.
    pub drop_evaluator-undoes :
        (eval : Option R) (addresses : List (List ℤ)) (repo : CompareCondRepo h R)
        → AllTables laws repo.attribute_to_compare_cond_record
        → ((j : Text) (k : RecRef)
            → same (new_eval_category_rec eval repo).0 k ≡ true
            → registered h repo.attribute_to_compare_cond_record j k ≡ false)
        → (repo₁ : CompareCondRepo h R) × (repo₂ : CompareCondRepo h R) × (register_addresses
              addresses
              (new_eval_category_rec eval repo).0
              (new_eval_category_rec eval repo).1
            ≡ done repo₁)
          × (drop_evaluator (new_eval_category_rec eval repo).0 repo₁ ≡ done repo₂)
          × (repo₂.eval_category_recs ≡ repo.eval_category_recs)
          × ((j : Text) (k : RecRef)
              → registered h repo₂.attribute_to_compare_cond_record j k
                ≡ registered h repo.attribute_to_compare_cond_record j k)
    unfolding new_eval_category_rec unregister_cat_evaluator
    drop_evaluator-undoes eval addresses repo all fresh =
        let (p, made) = new_eval_category_rec eval repo in
        let (repo₁, r, first, is, keys, (all₁, recs, reg)) =
          register_addresses-ends addresses p made _ (get_elem?-last repo.records _) all in
        (
          repo₁,
          record repo₁ {
            eval_category_recs = repo.eval_category_recs;
            attribute_to_compare_cond_record =
                unregister_keys h (map address_match_key addresses) p
                  repo₁.attribute_to_compare_cond_record;
          },
          first,
          rw (discard-last repo.eval_category_recs p repo₁ recs, is, keys) refl,
          refl,
          λ j k.
              registered-unregister laws (map address_match_key addresses) j p k _ all₁
              ∙ rw (reg j k) (ground (arith, fresh j k)),
        )
