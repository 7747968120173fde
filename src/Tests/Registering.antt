-- ===== src/Tests/Registering.antt =====
-- engine/engine_api.go: rules that are read from a text and registered. A rule's metadata is a number.
use rulestone.Prelude.{ℕ, ◌≡◌, inr, refl, some, List, [], ◌∷◌, get_elem?, arith}
use rulestone.Prelude.Int.{ℤ}
use rulestone.Prelude.Fault.{panic}
use rulestone.Condition.Operand.Numerals.{text_eq}
use rulestone.Engine.Records.{GeneralRuleRecord, get_rule_definition}
use rulestone.Engine.Rules.{
  InternalRule, Decoders, RuleEngineRepo, external_to_internal_rule, register_all,
  register_rule_from_string,
}
use rulestone.Engine.Rules.Registered.{get_rule_definition-register_all}
use rulestone.Tests.Operands.{digest}
use rulestone.Tests.Paths.{bytes}

abbrev rule : ℕ → InternalRule ℕ ℤ
rule n = external_to_internal_rule digest (record { metadata = n; expression = bytes "a == 1" })

abbrev before : List (GeneralRuleRecord (InternalRule ℕ ℤ))
before = record { definition = rule 7; id = 0 } ∷ []

get_rule_definition-register_all_example :
    ((i : ℕ) (f : InternalRule ℕ ℤ)
      → get_elem? (rule 8 ∷ rule 9 ∷ []) i ≡ some f
      → (id : ℕ) × (get_elem? (register_all digest (rule 8 ∷ rule 9 ∷ []) before).0 i ≡ some id)
        × (get_rule_definition (register_all digest (rule 8 ∷ rule 9 ∷ []) before).1 id ≡ some f))
    × ((id : ℕ) (r : GeneralRuleRecord (InternalRule ℕ ℤ))
        → get_elem? before id ≡ some r
        → get_rule_definition (register_all digest (rule 8 ∷ rule 9 ∷ []) before).1 id
          ≡ some r.definition)
unfolding register_all
get_rule_definition-register_all_example =
    get_rule_definition-register_all digest (rule 8 ∷ rule 9 ∷ []) before (omega arith)

-- Decoders that find no rule.
abbrev no_rules : Decoders ℕ
no_rules = record {
  to_lower = λ text. text;
  decode_json = λ text. inr [];
  decode_yaml = λ text. inr [];
}

abbrev empty : RuleEngineRepo ℕ ℤ
empty = record { rules = []; ctx = record { errors = [] } }

-- The text [] has no first rule.
no_first_rule : register_rule_from_string digest no_rules empty (bytes "[]") (bytes "json") ≡ panic
unfolding register_rule_from_string text_eq
no_first_rule = refl
