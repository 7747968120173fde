-- ===== src/Engine/Registry.antt =====
-- engine/engine_impl.go: the category records of CompareCondRepo, and the evaluators that are registered
-- for the keys of attributes. A pointer to a record is its position among all records that were made, and
-- the record's category, which never changes. `R` is what a record evaluates.
pub mod Keys
pub mod Undo
use rulestone.Prelude.{
  ℕ, ◌+◌, ◌-◌, Option, none, some, List, [], ◌∷◌, ◌++◌, length, get_elem?, set, take, ◌==◌,
  if◌then◌else◌,
}
use rulestone.Prelude.Int.{ℤ, pos, wrap32, ◌==ℤ◌}
use rulestone.Prelude.Fault.{Outcome, done, panic, or_panic, ◌>>=◌}
use rulestone.Immutable.Hash.{uint64}
use rulestone.Immutable.Set.{SetElement, Hashset}
use rulestone.Types.{Category}
use rulestone.Condition.Operand.{Text}
use rulestone.Objectmap.TextMap.{lookup, put, delete}
use rulestone.Objectmap.Address.{address_match_key}

pub record RecRef : Type 0 where
  pub position : ℕ
  pub cat : Category

pub record EvalCategoryRec (R : Type 0) : Type 0 where
  pub cat : Category
  pub eval : Option R
  pub attr_keys : List Text

-- GetHash and Equals: records are compared by their hash, which is the category.
instance unfoldable pub record_element : SetElement RecRef
record_element = record {
  get_hash = λ v. uint64 v.cat;
  equals = λ v element. uint64 v.cat == uint64 element.cat;
}

-- The maps by conditions are not modelled.
pub record CompareCondRepo (h : Hashset) (R : Type 0) : Type 0 where
  pub records : List (EvalCategoryRec R)
  pub eval_category_recs : List RecRef
  pub attribute_to_compare_cond_record : List (Text × h.Table RecRef)

module _ (h : Hashset) where
  -- The set of a key, made when there is none.
  unfoldable pub set_of : Option (h.Table RecRef) → h.Table RecRef
  unfolding record_element
  set_of none = h.of RecRef record_element []
  set_of (some table) = table

  -- A set without records is deleted.
  unfoldable pub store :
      Text → h.Table RecRef → List (Text × h.Table RecRef) → List (Text × h.Table RecRef)
  store key table m = if h.size RecRef table == 0 then delete key m else put key table m

  unfoldable pub unregister_keys :
      List Text → RecRef → List (Text × h.Table RecRef) → List (Text × h.Table RecRef)
  unfolding store
  unregister_keys [] p m = m
  unregister_keys (key ∷ keys) p m = elim (lookup key m) [
    | some table ↦ unregister_keys keys p (store key (h.remove RecRef table p) m)
    | none ↦ unregister_keys keys p m
  ]

module _ {h : Hashset} {R : Type 0} where
  unfoldable pub new_eval_category_rec :
      Option R → CompareCondRepo h R → RecRef × CompareCondRepo h R
  new_eval_category_rec eval repo =
      let cat : Category = wrap32 (pos (length repo.eval_category_recs + 1)) in
      let p : RecRef = record { position = length repo.records; cat = cat } in
      (
        p,
        record repo {
          records = repo.records ++ record { cat = cat; eval = eval; attr_keys = [] } ∷ [];
          eval_category_recs = repo.eval_category_recs ++ p ∷ [];
        },
      )

  -- Only the record that was added last can be discarded.
  unfoldable pub discard_eval_category_rec :
      RecRef → CompareCondRepo h R → Outcome (CompareCondRepo h R)
  discard_eval_category_rec discarded repo = do
    let n = length repo.eval_category_recs
    last ← or_panic (get_elem? repo.eval_category_recs (n - 1))
    if last.cat ==ℤ discarded.cat
        then done (record repo { eval_category_recs = take (n - 1) repo.eval_category_recs })
        else panic

  unfoldable pub register_key : Text → RecRef → CompareCondRepo h R → Outcome (CompareCondRepo h R)
  unfolding set_of
  register_key key p repo = do
    let table = set_of h (lookup key repo.attribute_to_compare_cond_record)
    r ← or_panic (get_elem? repo.records p.position)
    done (record repo {
      attribute_to_compare_cond_record =
          put key (h.put RecRef table p) repo.attribute_to_compare_cond_record;
      records = set repo.records p.position (record r { attr_keys = r.attr_keys ++ key ∷ [] });
    })

  unfoldable pub register_cat_evaluator_for_address :
      List ℤ → Option RecRef → CompareCondRepo h R → Outcome (CompareCondRepo h R)
  unfolding register_key
  register_cat_evaluator_for_address attr_address none repo = done repo
  register_cat_evaluator_for_address attr_address (some p) repo =
      register_key (address_match_key attr_address) p repo

  unfoldable pub unregister_cat_evaluator :
      Option RecRef → CompareCondRepo h R → Outcome (CompareCondRepo h R)
  unfolding unregister_keys
  unregister_cat_evaluator none repo = done repo
  unregister_cat_evaluator (some p) repo = do
    r ← or_panic (get_elem? repo.records p.position)
    done (record repo {
      attribute_to_compare_cond_record =
          unregister_keys h r.attr_keys p repo.attribute_to_compare_cond_record;
    })
