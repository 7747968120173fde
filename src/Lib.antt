-- ===== src/Lib.antt =====
-- A model of the rulestone rule engine.
--
-- Rules are expressions over the attributes of an event. The engine replaces each comparison of an
-- expression by a category, an integer. A rule is then a condition over categories, built from And,
-- Or and Not, and an event is the list of the categories whose comparisons hold. Matching is done on
-- tables that a builder makes once from all rules.
--
--   Prelude    what all modules share: tests on native numbers, lists by position, integers, bits of
--              a number, and `Outcome`, the result of code that may panic or whose model runs on fuel
--   Types      types/types.go: categories, masks, slice helpers, the error log, sets of sets. A
--              Category is the integer that it stands for, a Mask its pattern below 2 ^ 64
--   Immutable  immutable/set.go: Set (Immutable/Set) and the hash functions (Immutable/Hash), over
--              a hash table and SHA-256 as parameters
--   Condition  condition/: operands with their kinds, hashes, conversions and comparison
--              (condition/condition.go), conditions (Condition/Tree), rules and the repository
--              (condition/rule.go, condition/condition_utils.go)
--   Cateng     cateng/builder.go: SliceMap and CatSetMaskArray (Cateng/SliceMap, Cateng/MaskArray),
--              the tables (Cateng/Tables), FilterBuilder (Cateng/Builder): its registry of sets,
--              computeCatFilter (Compile), the rules (Rules), computeCatToRules (Assign), the
--              optimiser (Frequency, Optimise, Inline, Build). cateng/category_engine.go: MatchEvent
--              (Cateng/Engine)
--   Objectmap  objectmap/object_attribute_map.go: paths (Path), the dictionary records in a heap and
--              AttributePathToAddress (Dictionary), addresses and their keys (Address), the mapping of
--              an event (Event, Pool) and the reads of its values (Values)
--   Engine     engine/engine_impl.go: the negation of comparisons (Negation), the closures of conditions
--              (Closures), of operators and functions (Expressions), of attributes, forAll and forSome
--              (Frames), the scopes that these open and the paths in them (Scope), the category records
--              and what they are registered for (Registry). engine/lookups.go: StringMatcher.
--              engine/engine_api.go: reading and registering rules (Rules, Records) and
--              RuleEngine.MatchEvent (Match)
--   Tests      the theorems and whole runs at concrete inputs
--
-- The builder turns the condition of a rule into a set of or-sets, each a set of categories: the
-- conjunction of disjunctions. A disjunction that has no such form gets sets of its own, which are
-- named by negative, synthetic categories. Each set has a slot, a mask of 64 bits, and each or-set of
-- it some bits of the slot. An event sets bits; a slot whose bits are all set reports the rules of
-- its set and goes on with the synthetic category that names the set. A negated category is one more
-- category, which an event has by default.
--
-- Pointers to the records of the builder are addresses in a list, so that the list of sets, the map
-- and the callers share them. What the repository takes from elsewhere is a parameter: the hash
-- sets and hash maps of zyedidia/generic, SHA-256, sort.Slice, the order of a range over a Go map,
-- float64, dates, the Aho-Corasick automaton, files and the decoders of JSON and YAML.
--
-- A rule names attributes by paths. The mapper gives each path an address, of the index of an attribute
-- and the index of an array element in turn, and an event is turned into slices that are read by
-- addresses. The maps of the records are association lists, and a pointer to a record is its position in
-- a list, to which records are only added.
--
-- Each category has a record with the closure that evaluates its comparison, and is registered for the
-- keys of the attributes that the comparison reads. MatchEvent maps the event, evaluates the records of
-- its attributes and hands the categories that hold to the category engine. A closure reads and writes
-- the 20 frames of the call, of which forAll and forSome use one for each level of nesting.
--
-- Fuel: applyCatSetMasks runs on one more than the number of slots, since each nested call has filled
-- one more slot. computeCatFilter runs on twice the nesting of the condition and two more. The loops
-- of optimize and the inlining of sets run on a fuel that is an argument, and no theorem speaks of
-- their end.
--
-- Not modelled: the walk of the syntax tree of an expression
-- (engine/engine_impl.go), the caches of condition/factory.go, actors/, printing, and
-- the tests and benchmarks.
pub mod Prelude
pub mod Types
pub mod Immutable
pub mod Condition
pub mod Cateng
pub mod Objectmap
pub mod Engine
pub mod Tests
