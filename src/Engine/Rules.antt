-- ===== src/Engine/Rules.antt =====
-- engine/engine_api.go: reading rules and registering them. The decoders of JSON and YAML, ToLower, the
-- files and the extension of a path are parameters.
pub mod Registered
use rulestone.Prelude.{
  ℕ, ◌-◌, ◌^◌, ◌||◌, ◌⊎◌, inl, inr, Option, none, some, List, [], ◌∷◌, map, if◌then◌else◌,
}
use rulestone.Prelude.Fault.{Outcome, done, panic, or_panic, ◌>>=◌}
use rulestone.Immutable.Hash.{Digest}
use rulestone.Condition.Operand.{Text}
use rulestone.Condition.Operand.Numerals.{text_eq}
use rulestone.Condition.Tree.{Condition, new_expr_condition}
use rulestone.Types.ErrorLog.{AppContext, log_error}
use rulestone.Engine.Records.{GeneralRuleRecord, register}

-- `M` is a rule's metadata.
pub record ExternalRule (M : Type 0) : Type 0 where
  pub metadata : M
  pub expression : Text

pub record InternalRule (M F : Type 0) : Type 0 where
  pub metadata : M
  pub condition : Condition F

pub data RuleError : Type 0 where
  parsing_json parsing_yaml unsupported_type : Text → RuleError
  cannot_open : RuleError

-- A repository of rules, with the log.
pub record RuleEngineRepo (M F : Type 0) : Type 0 where
  pub rules : List (GeneralRuleRecord (InternalRule M F))
  pub ctx : AppContext RuleError

-- Decode gives the rules, or the text of an error.
pub record Decoders (M : Type 0) : Type 0 where
  pub to_lower : Text → Text
  pub decode_json : Text → Text ⊎ List (ExternalRule M)
  pub decode_yaml : Text → Text ⊎ List (ExternalRule M)

module _ {M F : Type 0} (d : Digest) where
  -- An expression condition is never an error.
  unfoldable pub external_to_internal_rule : ExternalRule M → InternalRule M F
  unfolding new_expr_condition
  external_to_internal_rule rule = record {
    metadata = rule.metadata;
    condition = new_expr_condition d rule.expression;
  }

  -- The rules, or the error, which is logged.
  unfoldable pub failed :
      AppContext RuleError
      → RuleError
      → AppContext RuleError × (RuleError ⊎ List (InternalRule M F))
  unfolding log_error
  failed ctx e = let (ctx, err) = log_error ctx e in (ctx, inl err)

  unfoldable pub decoded :
      (Text → RuleError)
      → AppContext RuleError
      → Text ⊎ List (ExternalRule M)
      → AppContext RuleError × (RuleError ⊎ List (InternalRule M F))
  unfolding failed external_to_internal_rule
  decoded error ctx (inl text) = failed ctx (error text)
  decoded error ctx (inr result) = (ctx, inr (map external_to_internal_rule result))

  unfoldable pub read_rules :
      Decoders M
      → AppContext RuleError
      → Text
      → Text
      → AppContext RuleError × (RuleError ⊎ List (InternalRule M F))
  unfolding decoded
  read_rules decoders ctx r file_type =
      let kind = decoders.to_lower file_type in
      if text_eq kind (b'j' ∷ b's' ∷ b'o' ∷ b'n' ∷ [])
      then decoded parsing_json ctx (decoders.decode_json r)
      else if text_eq kind (b'y' ∷ b'a' ∷ b'm' ∷ b'l' ∷ [])
          || text_eq kind (b'y' ∷ b'm' ∷ b'l' ∷ [])
      then decoded parsing_yaml ctx (decoders.decode_yaml r)
      else failed ctx (unsupported_type file_type)

  -- rules[0], which panics when there is no rule.
  unfoldable pub register_first :
      RuleEngineRepo M F
      → AppContext RuleError × (RuleError ⊎ List (InternalRule M F))
      → Outcome (RuleEngineRepo M F × ℕ × Option RuleError)
  unfolding register
  register_first repo (ctx, inl err) = done (record repo { ctx = ctx }, 2 ^ 64 - 1, some err)
  register_first repo (ctx, inr []) = panic
  register_first repo (ctx, inr (rule ∷ rules)) =
      let (id, registered) = register rule repo.rules in
      done (record { rules = registered; ctx = ctx }, id, none)

  unfoldable pub register_rule_from_string :
      Decoders M
      → RuleEngineRepo M F
      → Text
      → Text
      → Outcome (RuleEngineRepo M F × ℕ × Option RuleError)
  unfolding read_rules register_first
  register_rule_from_string decoders repo rule format =
      register_first repo (read_rules decoders repo.ctx rule format)

  -- The loop over the rules of a file.
  unfoldable pub register_all :
      List (InternalRule M F)
      → List (GeneralRuleRecord (InternalRule M F))
      → List ℕ × List (GeneralRuleRecord (InternalRule M F))
  unfolding register
  register_all [] rules = ([], rules)
  register_all (f ∷ fs) rules =
      let (id, rules) = register f rules in
      let (ids, rules) = register_all fs rules in (id ∷ ids, rules)

  unfoldable pub register_read :
      RuleEngineRepo M F
      → AppContext RuleError × (RuleError ⊎ List (InternalRule M F))
      → RuleEngineRepo M F × List ℕ × Option RuleError
  unfolding register_all
  register_read repo (ctx, inl err) = (record repo { ctx = ctx }, [], some err)
  register_read repo (ctx, inr fs) =
      let (ids, rules) = register_all fs repo.rules in
      (record { rules = rules; ctx = ctx }, ids, none)

  -- The content of the file, if it can be opened, and the extension of its path with its dot, without
  -- which fileType[1:] panics.
  unfoldable pub register_rules_from_file :
      Decoders M
      → RuleEngineRepo M F
      → Option Text
      → Text
      → Outcome (RuleEngineRepo M F × List ℕ × Option RuleError)
  unfolding read_rules register_read
  register_rules_from_file decoders repo none ext = done (repo, [], some cannot_open)
  register_rules_from_file decoders repo (some content) [] = panic
  register_rules_from_file decoders repo (some content) (dot ∷ file_type) =
      done (register_read repo (read_rules decoders repo.ctx content file_type))
