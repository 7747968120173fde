-- ===== src/Engine/Rules/Registered.antt =====
-- The rules that a file registers, read back by their ids.
use rulestone.Prelude.{
  ℕ, zero, suc, ◌^◌, ◌<◌, ◌≡◌, refl, ap, ◌∙◌, some, List, [], ◌∷◌, length, get_elem?,
  get_elem?-keep, get_elem?-last, lt-length_of_get_elem?, arith,
}
use rulestone.Immutable.Hash.{Digest}
use rulestone.Engine.Records.{GeneralRuleRecord, register, definition_of, get_rule_definition}
use rulestone.Engine.Rules.{InternalRule, register_all}

module _ {M F : Type 0} (d : Digest) where
  -- A rule that was registered before keeps its place.
  register_all-keeps :
      (fs : List (InternalRule M F)) (rules : List (GeneralRuleRecord (InternalRule M F))) (i : ℕ)
      {r : GeneralRuleRecord (InternalRule M F)}
      → get_elem? rules i ≡ some r
      → get_elem? (register_all d fs rules).1 i ≡ some r
  unfolding register_all register
  register_all-keeps [] rules i h = h
  register_all-keeps (f ∷ fs) rules i h = register_all-keeps fs _ i (get_elem?-keep rules _ i h)

  definition_at :
      (rules : List (GeneralRuleRecord (InternalRule M F))) (i : ℕ)
      (r : GeneralRuleRecord (InternalRule M F))
      → length rules < 2 ^ 63
      → get_elem? rules i ≡ some r
      → get_rule_definition rules i ≡ some r.definition
  unfolding get_rule_definition definition_of
  definition_at rules i r bound h =
      let low = lt-length_of_get_elem? rules i h in rw h (ground (arith, low, bound))

  registered :
      (fs : List (InternalRule M F)) (rules : List (GeneralRuleRecord (InternalRule M F)))
      → length (register_all d fs rules).1 < 2 ^ 63
      → (i : ℕ) (f : InternalRule M F) → get_elem? fs i ≡ some f
      → (id : ℕ) × (get_elem? (register_all d fs rules).0 i ≡ some id)
        × (get_rule_definition (register_all d fs rules).1 id ≡ some f)
  unfolding register_all register
  registered [] rules bound i f h = cc
  registered (g ∷ fs) rules bound zero f h =
      let same : g ≡ f = cc in
      (
        length rules,
        refl,
        definition_at _ (length rules) _ bound
              (register_all-keeps fs _ (length rules) (get_elem?-last rules _))
            ∙ ap some same,
      )
  registered (g ∷ fs) rules bound (suc i) f h = registered fs _ bound i f h

  -- When a repository of less than 2 ^ 63 rules has taken the rules of a file, GetRuleDefinition
  -- gives, for the id that was returned for each rule, that rule, and for the ids of the rules that
  -- were there before their definitions.
  pub get_rule_definition-register_all :
      (fs : List (InternalRule M F)) (rules : List (GeneralRuleRecord (InternalRule M F)))
      → length (register_all d fs rules).1 < 2 ^ 63
      → ((i : ℕ) (f : InternalRule M F)
          → get_elem? fs i ≡ some f
          → (id : ℕ) × (get_elem? (register_all d fs rules).0 i ≡ some id)
            × (get_rule_definition (register_all d fs rules).1 id ≡ some f))
        × ((id : ℕ) (r : GeneralRuleRecord (InternalRule M F))
            → get_elem? rules id ≡ some r
            → get_rule_definition (register_all d fs rules).1 id ≡ some r.definition)
  get_rule_definition-register_all fs rules bound = (
    registered fs rules bound,
    λ id r h. definition_at _ id r bound (register_all-keeps fs rules id h),
  )
