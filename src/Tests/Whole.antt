-- ===== src/Tests/Whole.antt =====
-- engine/: a whole event, with one registered record, for the expression hasValue(name).
use mathlib.Core.List.{Memᴰ}
use mathlib.Core.List.Memᴰ
use rulestone.Prelude.{
  ℕ, ◌≡◌, ◌↔◌, refl, ap, sym, ◌∙◌, subst, inl, inr, true, false, not, Option, none, some, List, [],
  ◌∷◌, get_elem?, if-cases, Bool-cases, arith, ◌==◌, if◌then◌else◌,
}
use rulestone.Prelude.Int.{ℤ, pos, is_neg}
use rulestone.Prelude.Fault.{done, Returns}
use rulestone.Types.{Category}
use rulestone.Immutable.Hash.{uint64}
use rulestone.Condition.Operand.{
  Text, Operand, address_operand, int_operand, boolean_operand, null_operand, error_operand,
}
use rulestone.Condition.Operand.Compare.{is_error}
use rulestone.Condition.Operand.Numerals.{text_eq}
use rulestone.Objectmap.TextMap.{lookup}
use rulestone.Objectmap.Dictionary.{AttrDictionaryRec, root_rec}
use rulestone.Objectmap.Dictionary.Valid.{has_map}
use rulestone.Objectmap.Values
use rulestone.Objectmap.Values.{
  Value, Values, nil, scalar, slice, get, get_nested_attribute_by_address,
}
use rulestone.Objectmap.Event.Frames.{Fits, fits_slice, FitSlots, get-FitSlots}
use rulestone.Engine.Closures.{Eval}
use rulestone.Engine.Expressions.{is_null, eval_has_value}
use rulestone.Engine.Frames.{EvalState, eval_access}
use rulestone.Engine.Frames.Duality.{get_nested-append}
use rulestone.Engine.Records.{result_categories}
use rulestone.Engine.Registry.{RecRef, record_element, CompareCondRepo, new_eval_category_rec}
use rulestone.Engine.Registry.Keys.{Sets, registered, same, AllTables}
use rulestone.Engine.Registry.Undo.{register_addresses, drop_evaluator, drop_evaluator-undoes}
use rulestone.Objectmap.Address.{address_match_key}
use rulestone.Engine.Match.{RuleEngine, collect, match_event}
use rulestone.Engine.Match.Collect.{Holds, IsUnique, collect_iff}
use rulestone.Engine.Match.Refines.{IsFramed, Gives, IsMatch, match_event-IsMatch}
use rulestone.Tests.Tables.{hashset}
use rulestone.Tests.Operands.{formats, digest}
use rulestone.Tests.Laws.{laws}
use rulestone.Tests.Paths.{bytes}
use rulestone.Tests.Matching.{engine, tables-IsWellFormed, only_one}
use rulestone.Tests.Events.{family, family-IsPlain, named, name-IsRegistered}

abbrev Op : Type 0
Op = Operand ℤ

-- hasValue(name), for the first attribute of the event.
abbrev has_name : Eval (EvalState ℤ) ℤ
has_name =
    eval_has_value formats digest
      (eval_access (λ s. done (address_operand (pos 0 ∷ []) (pos 0 ∷ []) 0 0, s)))

abbrev name_rec : RecRef
name_rec = record { position = 0; cat = pos 1 }

abbrev name_set : hashset.Table RecRef
name_set = (record_element, name_rec ∷ [])

abbrev sets : Sets hashset
sets = (bytes "0", name_set) ∷ []

abbrev whole : RuleEngine hashset ℤ
whole = record {
  cat_engine = engine;
  repo = record {
    records = record { cat = pos 1; eval = some has_name; attr_keys = bytes "0" ∷ [] } ∷ [];
    eval_category_recs = name_rec ∷ [];
    attribute_to_compare_cond_record = sets;
  };
  dictionary = named;
  pool = record { objects = []; object_pool = []; object_list = [] };
  num_cat_evals = 0;
}

abbrev named_root : AttrDictionaryRec
named_root = record root_rec {
  dict = some (([], 1) ∷ (bytes "name", 2) ∷ []);
  dict_index = 2 ∷ [];
  num_attributes = 1;
}

abbrev named_leaf : AttrDictionaryRec
named_leaf = record root_rec {
  dict = none;
  mapper = false;
  attribute = bytes "name";
  path = bytes "name";
  address = pos 0 ∷ [];
}

-- What the record gives: its category, where the attribute has a value.
abbrev of_operand : Op → List Category
of_operand (error_operand err) = []
of_operand null_operand = []
of_operand _ = pos 1 ∷ []

abbrev of_slot : Option (Value Op) → List Category
of_slot (some (scalar o)) = of_operand o
of_slot _ = []

abbrev gives : Values Op → RecRef → List Category
gives event k = of_slot (Values.get event 0)

one_set : (key : Text) (t : hashset.Table RecRef) → lookup key sets ≡ some t → t ≡ name_set
unfolding lookup
one_set key t h = elim (if-cases (text_eq (bytes "0") key) _ _ h) [
  | inl (e, found) ↦ cc
  | inr (e, missing) ↦ cc
]

one_record : (key : Text) (k : RecRef) → Holds laws sets key k → k ≡ name_rec
one_record key k (t, found, i) =
    elim (Memᴰ.cases_cons (subst (λ u. Memᴰ k u.1) (one_set key t found) i)) [
      | inl e ↦ e
      | inr j ↦ absurd (Memᴰ.not-nil j)
    ]

sets-AllTables : AllTables laws sets
unfolding laws
sets-AllTables key t h = ap (λ u. u.0) (one_set key t h)

sets-IsUnique : IsUnique laws sets
sets-IsUnique key other j k held holds e = one_record key j held ∙ sym (one_record other k holds)

gives-positive : (o : Option (Value Op)) (c : Category) → Memᴰ c (of_slot o) → is_neg c ≡ false
gives-positive (some (scalar (error_operand err))) c i = absurd (Memᴰ.not-nil i)
gives-positive (some (scalar null_operand)) c i = absurd (Memᴰ.not-nil i)
gives-positive (some (scalar _)) c i = only_one c i
gives-positive _ c i = absurd (Memᴰ.not-nil i)

abbrev answer : Op → Op
answer o = if is_error formats digest o then o else boolean_operand (not (is_null formats digest o))

answer-categories : (o : Op) → result_categories (pos 1) (answer o) ≡ done (of_operand o)
unfolding result_categories is_error
answer-categories (error_operand err) = refl
answer-categories null_operand = refl
answer-categories _ = refl

no_map : (r : AttrDictionaryRec) → get_elem? named.heap 2 ≡ some r → has_map r ≡ true → ⊥
no_map r is map =
    let one : named_leaf ≡ r = cc in
    let clash : has_map named_leaf ≡ true = ap has_map one ∙ map in cc

has_name-eval :
    (event : Values Op) (v : Value Op) (s : EvalState ℤ)
    → FitSlots named.heap (2 ∷ []) event
    → get event 0 ≡ some v
    → Fits named.heap 2 v
    → IsFramed event s
    → (o : Op) × (s' : EvalState ℤ) × (has_name s ≡ done (o, s'))
      × (result_categories (pos 1) o ≡ done (of_slot (get event 0)))
      × IsFramed event s'
unfolding eval_has_value eval_access get_nested_attribute_by_address is_error result_categories
has_name-eval event nil s fits at fit framed = (
  boolean_operand false,
  s,
  rw (framed.0, get_nested-append (slice event) [] event 0 _ refl at) refl,
  rw at refl,
  framed,
)
has_name-eval event (scalar o) s fits at fit framed = (
  answer o,
  s,
  rw (framed.0, get_nested-append (slice event) [] event 0 _ refl at) refl,
  answer-categories o ∙ ap (λ slot. done (of_slot slot)) (sym at),
  framed,
)
has_name-eval event (slice vs) s fits at (fits_slice r is map f) framed = absurd (no_map r is map)

name-Gives : Gives (FitSlots named.heap (2 ∷ [])) gives whole.repo.records name_rec
name-Gives = (
  record { cat = pos 1; eval = some has_name; attr_keys = bytes "0" ∷ [] },
  has_name,
  refl,
  refl,
  λ event s fits framed.
      let (v, at, fit) = get-FitSlots named.heap 0 2 fits refl in
      has_name-eval event v s fits at fit framed,
)

match_event-IsMatch_example :
    Returns
      (IsMatch laws (λ n. int_operand (pos n)) whole family none named_root gives)
      (match_event (λ n. int_operand (pos n)) family none whole)
match_event-IsMatch_example =
    match_event-IsMatch laws (λ n. int_operand (pos n)) whole family none named_root gives
      name-IsRegistered.valid refl family-IsPlain tt tables-IsWellFormed sets-AllTables
      sets-IsUnique (λ event k c i. gives-positive (get event 0) c i)
      (λ k key holds.
        subst (Gives (FitSlots named.heap (2 ∷ [])) gives whole.repo.records)
          (sym (one_record key k holds)) name-Gives)

not_one :
    (c : ℕ) → (uint64 (pos 2) == c) ≡ true → (if uint64 (pos 1) == c then true else false) ≡ false
not_one c e = ground arith

-- A second record has category 2, which the set of the first one does not have.
second_is_new :
    (j : Text) (k : RecRef)
    → same (new_eval_category_rec none whole.repo).0 k ≡ true
    → registered hashset sets j k ≡ false
unfolding registered lookup record_element new_eval_category_rec
second_is_new j k e = elim (Bool-cases (text_eq (bytes "0") j)) [
  | inl h ↦ rw h (not_one (uint64 k.cat) e)
  | inr h ↦ rw h refl
]

drop_evaluator-undoes_example :
    (repo₁ : CompareCondRepo hashset (Eval (EvalState ℤ) ℤ)) × (repo₂ : CompareCondRepo hashset
      (Eval (EvalState ℤ) ℤ))
    × (register_addresses
          ((pos 0 ∷ []) ∷ (pos 1 ∷ []) ∷ [])
          (new_eval_category_rec none whole.repo).0
          (new_eval_category_rec none whole.repo).1
        ≡ done repo₁)
    × (drop_evaluator (new_eval_category_rec none whole.repo).0 repo₁ ≡ done repo₂)
    × (repo₂.eval_category_recs ≡ whole.repo.eval_category_recs)
    × ((j : Text) (k : RecRef)
        → registered hashset repo₂.attribute_to_compare_cond_record j k
          ≡ registered hashset sets j k)
drop_evaluator-undoes_example =
    drop_evaluator-undoes laws none ((pos 0 ∷ []) ∷ (pos 1 ∷ []) ∷ []) whole.repo sets-AllTables
      second_is_new

collect_iff_example :
    (hashset.has RecRef
        (collect hashset sets ((pos 0 ∷ []) ∷ []) (hashset.of RecRef record_element []))
        name_rec
      ≡ true)
    ↔ ((addr : List ℤ) × Memᴰ addr ((pos 0 ∷ []) ∷ [])
        × (registered hashset sets (address_match_key addr) name_rec ≡ true))
collect_iff_example = collect_iff laws sets ((pos 0 ∷ []) ∷ []) name_rec sets-AllTables
