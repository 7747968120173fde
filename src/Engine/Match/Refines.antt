-- ===== src/Engine/Match/Refines.antt =====
-- RuleEngine.MatchEvent on an event: what it evaluates, and the rules that it returns.
use mathlib.Core.List.{Memᴰ}
use mathlib.Core.List.Memᴰ
use rulestone.Prelude.{
  ℕ, ◌≡◌, ◌↔◌, inl, inr, refl, sym, subst, false, Option, some, List, [], ◌∷◌, ◌++◌, get_elem?,
  length, replicate,
}
use rulestone.Prelude.Int.{ℤ, is_neg}
use rulestone.Prelude.Fault.{done, Returns, Returns-done}
use rulestone.Immutable.Set.{Hashset}
use rulestone.Immutable.Set.Laws.{Laws}
use rulestone.Types.{Category, bump}
use rulestone.Condition.Operand.{Text, Operand}
use rulestone.Cateng.Engine.Fired.{IsReported}
use rulestone.Cateng.Engine.Event.{Brings}
use rulestone.Cateng.Engine.WellFormed.{IsWellFormed}
use rulestone.Cateng.Engine.Correct.{match_event-refines}
use rulestone.Objectmap.Address.{address_match_key}
use rulestone.Objectmap.Dictionary.{AttrDictionaryRec}
use rulestone.Objectmap.Dictionary.Valid.{IsValid}
use rulestone.Objectmap.Values.{Values, nil, slice}
use rulestone.Objectmap.Event.{Json}
use rulestone.Objectmap.Event.Maps.{IsPlain}
use rulestone.Objectmap.Event.Frames.{FitSlots}
use rulestone.Objectmap.Pool.{ObjectAttributeMap, Pool, map_object}
use rulestone.Objectmap.Pool.Fits.{IsChoice, IsMapped, map_object-IsMapped}
use rulestone.Engine.Closures.{Eval}
use rulestone.Engine.Frames.{EvalState}
use rulestone.Engine.Records.{result_categories}
use rulestone.Engine.Registry.{RecRef, EvalCategoryRec, record_element}
use rulestone.Engine.Registry.Keys.{Sets, AllTables}
use rulestone.Engine.Match.{collect, evaluate_records, RuleEngine, match_event}
use rulestone.Engine.Match.Collect.{Holds, IsUnique, each-collect, collect-Brings}

iff_trans : {A B C : Type 0} → (A ↔ B) → (B ↔ C) → A ↔ C
iff_trans (to, from) (to', from') = ((λ a. to' (to a)), (λ c. from (from' c)))

module _ {F : Type 0} where
  -- The frames of a closure: the event's values, and 19 more.
  abbrev pub IsFramed : Values (Operand F) → EvalState F → Type 0
  IsFramed event s = (get_elem? s.frames 0 ≡ some (slice event)) × (length s.frames ≡ 20)

  -- In every state, the record evaluates to what gives the categories, none of them negative.
  abbrev pub Gives :
      (Values (Operand F) → Type 0)
      → (Values (Operand F) → RecRef → List Category)
      → List (EvalCategoryRec (Eval (EvalState F) F))
      → RecRef
      → Type 0
  Gives Fits gives records k =
      (r : EvalCategoryRec (Eval (EvalState F) F)) × (eval : Eval (EvalState F) F) × (get_elem?
          records k.position
        ≡ some r)
      × (r.eval ≡ some eval)
      × ((event : Values (Operand F)) (s : EvalState F)
          → Fits event
          → IsFramed event s
          → (o : Operand F) × (s' : EvalState F) × (eval s ≡ done (o, s'))
            × (result_categories k.cat o ≡ done (gives event k))
            × IsFramed event s')

  module _ (gives : Values (Operand F) → RecRef → List Category)
      (records : List (EvalCategoryRec (Eval (EvalState F) F))) (Fits : Values (Operand F) → Type 0)
      (event : Values (Operand F)) (fits : Fits event) where
    gives_append :
        (p : RecRef) (ps : List RecRef) (cats : List Category) (c : Category)
        → (Memᴰ c cats ↔ ((k : RecRef) × Memᴰ k ps × Memᴰ c (gives event k)))
        → Memᴰ c (gives event p ++ cats) ↔ ((k : RecRef) × Memᴰ k (p ∷ ps) × Memᴰ c (gives event k))
    gives_append p ps cats c (to, from) = (
      (λ m. elim (Memᴰ.append_cases (gives event p) m) [
        | inl m' ↦ (p, Memᴰ.head refl, m')
        | inr m' ↦ let (k, i, n) = to m' in (k, Memᴰ.tail i, n)
      ]),
      (λ (k, i, n). elim (Memᴰ.cases_cons i) [
        | inl e ↦ Memᴰ.append_left cats (subst (λ j. Memᴰ c (gives event j)) e n)
        | inr i' ↦ Memᴰ.append_right (gives event p) (from (k, i', n))
      ]),
    )

    evaluate_records-ends :
        (ps : List RecRef) (evals : ℕ) (s : EvalState F)
        → IsFramed event s
        → ((k : RecRef) → Memᴰ k ps → Gives Fits gives records k)
        → (evals' : ℕ) × (cats : List Category) × (s' : EvalState F) × (evaluate_records records ps
              evals s
            ≡ done (evals', cats, s'))
          × ((c : Category) → Memᴰ c cats ↔ ((k : RecRef) × Memᴰ k ps × Memᴰ c (gives event k)))
    unfolding evaluate_records
    evaluate_records-ends [] evals s framed each = (
      evals,
      [],
      s,
      refl,
      λ c. ((λ m. absurd (Memᴰ.not-nil m)), (λ (k, m, n). absurd (Memᴰ.not-nil m))),
    )
    evaluate_records-ends (p ∷ ps) evals s framed each =
        let (r, eval, is, has_eval, runs) = each p (Memᴰ.head refl) in
        let (o, s₁, first, cats₁, framed₁) = runs event s fits framed in
        let (evals', cats, s', rest, iff) =
          evaluate_records-ends ps (bump evals) s₁ framed₁ (λ k m. each k (Memᴰ.tail m)) in
        (
          evals',
          gives event p ++ cats,
          s',
          rw (is, has_eval, first, cats₁, rest) refl,
          λ c. gives_append p ps cats c (iff c),
        )

module _ {h : Hashset} {F : Type 0} (laws : Laws h RecRef record_element) where
  -- A category that a record gives which is registered for an attribute of the event.
  abbrev pub Evaluates :
      (Values (Operand F) → RecRef → List Category)
      → Sets h
      → Values (Operand F)
      → List (List ℤ)
      → Category
      → Type 0
  Evaluates gives m event calls c =
      (k : RecRef) × (addr : List ℤ) × Memᴰ addr calls
      × Holds laws m (address_match_key addr) k
      × Memᴰ c (gives event k)

  module _ (gives : Values (Operand F) → RecRef → List Category) (m : Sets h)
      (tables : AllTables laws m) (unique : IsUnique laws m) (event : Values (Operand F))
      (calls : List (List ℤ)) where
    abbrev matching : List RecRef
    matching = h.each RecRef (collect h m calls (h.of RecRef record_element []))

    matching-Holds :
        (k : RecRef)
        → Memᴰ k matching
        → (addr : List ℤ) × Memᴰ addr calls × Holds laws m (address_match_key addr) k
    matching-Holds k i = elim (each-collect laws m calls _ k tables laws.of-IsTable i) [
      | inl old ↦ absurd (laws.each-of k old)
      | inr brings ↦ brings
    ]

    matching_iff :
        (c : Category)
        → ((k : RecRef) × Memᴰ k matching × Memᴰ c (gives event k))
          ↔ Evaluates gives m event calls c
    matching_iff c = (
      (λ (k, i, n). let (addr, a, holds) = matching-Holds k i in (k, addr, a, holds, n)),
      (λ (k, addr, a, holds, n).
          let (j, i, q) = collect-Brings laws m calls k tables (addr, a, holds) in
          let (addr', a', holds') = matching-Holds j i in
          let one : j ≡ k = unique _ _ j k holds' holds q in
          (j, i, subst (λ l. Memᴰ c (gives event l)) (sym one) n)),
    )

  module _ {T : Type 0} (map_scalar : T → Operand F) (f : RuleEngine h F) (v : Json T)
      (choice : Option ℕ) (root : AttrDictionaryRec)
      (gives : Values (Operand F) → RecRef → List Category) where
    -- What MatchEvent returns: `calls` are the addresses of the event's attributes.
    abbrev pub IsMatch : RuleEngine h F × List ℕ → Type 0
    IsMatch (f', rules) =
        (pool : Pool (Operand F)) × (p : ℕ) × (calls : List (List ℤ)) × (o : ObjectAttributeMap
          (Operand F))
        × (cats : List Category) × (map_object map_scalar f.dictionary.heap v choice f.pool
            ≡ done (pool, p, calls))
        × (get_elem? pool.objects p ≡ some o)
        × ((c : Category)
            → Memᴰ c cats
              ↔ Evaluates gives f.repo.attribute_to_compare_cond_record o.values calls c)
        × (f'.cat_engine.filter_tables ≡ f.cat_engine.filter_tables)
        × ((r : ℕ)
            → Memᴰ r rules
              ↔ IsReported f.cat_engine.filter_tables (Brings f.cat_engine.filter_tables cats) r)

    -- For valid records, an event whose keys have no brackets and whose values are objects, arrays
    -- and scalars that are mapped, well-formed tables and hash sets, MatchEvent returns without a
    -- panic, and its rules are exactly those that the tables report for the categories that the
    -- event evaluates to: those given by the records that are registered for the key of one of the
    -- event's attributes. It is assumed that two registered records have different categories, and
    -- that each of them, on the values of such an event, evaluates to the categories that it gives,
    -- none of them negative, and keeps the event's frame.
    pub match_event-IsMatch :
        IsValid f.dictionary.heap
        → get_elem? f.dictionary.heap 0 ≡ some root
        → IsPlain v
        → IsChoice choice f.pool
        → IsWellFormed f.cat_engine.filter_tables
        → AllTables laws f.repo.attribute_to_compare_cond_record
        → IsUnique laws f.repo.attribute_to_compare_cond_record
        → ((event : Values (Operand F)) (k : RecRef) (c : Category)
            → Memᴰ c (gives event k)
            → is_neg c ≡ false)
        → ((k : RecRef) (key : Text)
            → Holds laws f.repo.attribute_to_compare_cond_record key k
            → Gives (FitSlots f.dictionary.heap root.dict_index) gives f.repo.records k)
        → Returns IsMatch (match_event map_scalar v choice f)
    unfolding match_event
    match_event-IsMatch valid is_root plain chosen wf tables unique signs answers =
        let ((pool, p, calls), mapped, (o, found, fits)) =
          Returns-done (IsMapped f.dictionary.heap root.dict_index) _ (
            map_object-IsMapped map_scalar f.dictionary.heap root v choice f.pool valid is_root
              plain chosen) in
        let event = o.values in
        let start : EvalState F = record {
          dictionary = f.dictionary;
          frames = slice event ∷ replicate 19 nil;
        } in
        let m = f.repo.attribute_to_compare_cond_record in
        let (evals, cats, s, evaluated, cats_iff) =
          evaluate_records-ends gives f.repo.records (FitSlots f.dictionary.heap root.dict_index)
            event fits (matching gives m tables unique event calls) f.num_cat_evals start
            (refl, refl)
            (λ k i.
              let (addr, a, r) = matching-Holds gives m tables unique event calls k i in
              answers k (address_match_key addr) r) in
        let (cat_engine, rules, matched, kept, reported) =
          match_event-refines f.cat_engine cats wf
            (λ c i. let (k, j, n) = (cats_iff c).0 i in signs event k c n) in
        rw (mapped, found, evaluated, matched)
          (
            pool,
            p,
            calls,
            o,
            cats,
            mapped,
            found,
            (λ c. iff_trans (cats_iff c) (matching_iff gives m tables unique event calls c)),
            kept,
            reported,
          )
