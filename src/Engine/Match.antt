-- ===== src/Engine/Match.antt =====
-- engine/engine_api.go: RuleEngine.MatchEvent, from an event to the rules that it matches. MapScalar is a
-- parameter, and so is the choice of the mapper's pool.
pub mod Collect
pub mod Refines
use rulestone.Prelude.{ℕ, ◌+◌, Option, none, some, List, [], ◌∷◌, ◌++◌, get_elem?, replicate}
use rulestone.Prelude.Int.{ℤ}
use rulestone.Prelude.Fault.{Outcome, done, panic, or_panic, ◌>>=◌}
use rulestone.Immutable.Set.{Hashset}
use rulestone.Types.{Category, bump}
use rulestone.Condition.Operand.{Text, Operand}
use rulestone.Cateng.Engine
use rulestone.Cateng.Engine.{CategoryEngine}
use rulestone.Objectmap.TextMap.{lookup}
use rulestone.Objectmap.Dictionary.{Dictionary}
use rulestone.Objectmap.Address.{address_match_key}
use rulestone.Objectmap.Values.{nil, slice}
use rulestone.Objectmap.Event.{Json}
use rulestone.Objectmap.Pool.{Pool, map_object, free_objects}
use rulestone.Engine.Closures.{Eval}
use rulestone.Engine.Frames.{EvalState}
use rulestone.Engine.Records.{result_categories}
use rulestone.Engine.Registry.{RecRef, EvalCategoryRec, record_element, CompareCondRepo}

module _ (h : Hashset) where
  unfoldable pub put_records : h.Table RecRef → List RecRef → h.Table RecRef
  put_records table [] = table
  put_records table (p ∷ ps) = put_records (h.put RecRef table p) ps

  -- The calls of MapObject's callback: the records that are registered for the attributes of the event.
  unfoldable pub collect :
      List (Text × h.Table RecRef) → List (List ℤ) → h.Table RecRef → h.Table RecRef
  unfolding put_records
  collect m [] matching = matching
  collect m (addr ∷ addrs) matching = elim (lookup (address_match_key addr) m) [
    | some records ↦ collect m addrs (put_records matching (h.each RecRef records))
    | none ↦ collect m addrs matching
  ]

module _ {F : Type 0} where
  -- The loop over the matching records; NumCatEvals counts them.
  unfoldable pub evaluate_records :
      List (EvalCategoryRec (Eval (EvalState F) F))
      → List RecRef
      → ℕ
      → EvalState F
      → Outcome (ℕ × List Category × EvalState F)
  unfolding result_categories
  evaluate_records records [] evals s = done (evals, [], s)
  evaluate_records records (p ∷ ps) evals s = do
    r ← or_panic (get_elem? records p.position)
    eval ← or_panic r.eval
    (result, s) ← eval s
    cats ← result_categories p.cat result
    (evals, rest, s) ← evaluate_records records ps (bump evals) s
    done (evals, cats ++ rest, s)

-- The log is part of the mapper's dictionary.
pub record RuleEngine (h : Hashset) (F : Type 0) : Type 0 where
  pub cat_engine : CategoryEngine
  pub repo : CompareCondRepo h (Eval (EvalState F) F)
  pub dictionary : Dictionary
  pub pool : Pool (Operand F)
  pub num_cat_evals : ℕ

module _ {h : Hashset} {F T : Type 0} (map_scalar : T → Operand F) where
  unfoldable pub match_event :
      Json T → Option ℕ → RuleEngine h F → Outcome (RuleEngine h F × List ℕ)
  unfolding collect evaluate_records
  match_event v choice f = do
    (pool, p, calls) ← map_object map_scalar f.dictionary.heap v choice f.pool
    o ← or_panic (get_elem? pool.objects p)
    let matching =
        collect h f.repo.attribute_to_compare_cond_record calls (h.of RecRef record_element [])
    (evals, cats, s) ←
        evaluate_records f.repo.records (h.each RecRef matching) f.num_cat_evals
          (record { dictionary = f.dictionary; frames = slice o.values ∷ replicate 19 nil })
    (cat_engine, rules) ← Engine.match_event f.cat_engine cats
    done (
      record f {
        cat_engine = cat_engine;
        dictionary = s.dictionary;
        pool = free_objects pool;
        num_cat_evals = evals;
      },
      rules,
    )
