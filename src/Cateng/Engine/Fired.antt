-- ===== src/Cateng/Engine/Fired.antt =====
-- Which masks fire and which sets are matched, as a least fixed point: what the engine should
-- compute from the masks that an event brings, whatever the order.
use mathlib.Core.List.{Memᴰ}
use rulestone.Prelude.{ℕ, suc, ◌<◌, ◌≡◌, true, some, get_elem?}
use rulestone.Prelude.Int.{pos}
use rulestone.Prelude.Bits.{bit}
use rulestone.Cateng.MaskArray.{CatSetMask}
use rulestone.Cateng.Tables.{RuleFilterRec, CatSetFilter, FilterTables}

-- The filter that stands at slot `i`.
abbrev pub IsFilter : FilterTables → ℕ → CatSetFilter → Type 0
IsFilter t i f = get_elem? t.cat_set_filters i ≡ some (some f)

module _ (t : FilterTables) (Source : CatSetMask → Type 0) where
  mutual
    -- A mask fires if the event brings it, or a matched set lists it as synthetic.
    pub data Fired : CatSetMask → Type 0 where
      source : {csm : CatSetMask} → Source csm → Fired csm
      chained :
          {i : ℕ} {f : CatSetFilter} {csm : CatSetMask}
          → Matched i
          → IsFilter t i f
          → Memᴰ csm f.cat_set_masks
          → Fired csm

    -- Bit `b` of slot `i` is set by some mask that fires.
    pub data IsOn : ℕ → ℕ → Type 0 where
      on :
          {i b : ℕ} {csm : CatSetMask}
          → Fired csm
          → csm.index1 ≡ pos (suc i)
          → bit b csm.mask ≡ true
          → IsOn i b

    -- All 64 bits of slot `i` are set.
    pub data Matched : ℕ → Type 0 where
      full : {i : ℕ} → ((b : ℕ) → b < 64 → IsOn i b) → Matched i

  -- Some matched set carries the rule.
  pub record IsReported (rule_id : ℕ) : Type 0 where
    pub at : ℕ
    pub filter : CatSetFilter
    pub rule : RuleFilterRec
    pub matched : Matched at
    pub is_filter : IsFilter t at filter
    pub listed : Memᴰ rule filter.rule_set
    pub has_id : rule.rule_id ≡ rule_id
