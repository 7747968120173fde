-- ===== src/Cateng/Engine/Branches.antt =====
-- The branches of applyCatSetMasks that write no mask: a slot that is full already, and the report
-- of the rules of a completed set.
use mathlib.Core.List.{Memᴰ}
use mathlib.Core.List.Memᴰ
use rulestone.Prelude.{
  ℕ, ◌<◌, ◌≡◌, ap, sym, ◌∙◌, subst, ◌⊎◌, inl, inr, true, List, [], ◌∷◌, map, arith,
}
use rulestone.Prelude.Bits.{bit}
use rulestone.Prelude.Fault.{Outcome, done}
use rulestone.Cateng.MaskArray.{CatSetMask}
use rulestone.Cateng.Tables.{RuleFilterRec, CatSetFilter, FilterTables}
use rulestone.Cateng.Engine.{Run, looked_up, report}
use rulestone.Cateng.Engine.Fired.{IsFilter, Matched, full, IsReported}
use rulestone.Cateng.Engine.Effect.{
  mask_at, IsFull, Applied, open_slots, bit-minus_one, IsLinked, IsReady, IsSound, Growth, Effect,
}

module _ (t : FilterTables) (Source : CatSetMask → Type 0) where
  abbrev pub Ends : List CatSetMask → Run → Outcome Run → Type 0
  Ends csm_list s r = (s' : Run) × (r ≡ done s') × Effect t Source csm_list s s'

  abbrev pub ListEnds : ℕ → (List CatSetMask → Run → Outcome Run) → Type 0
  ListEnds fuel h =
      (csm_list : List CatSetMask) (s : Run)
      → IsReady t s
      → ((csm : CatSetMask) → Memᴰ csm csm_list → IsLinked t csm)
      → open_slots s.masks < fuel
      → Ends csm_list s (h csm_list s)

  abbrev pub StepEnds : ℕ → (CatSetMask → Run → Outcome Run) → Type 0
  StepEnds fuel g =
      (csm : CatSetMask) (s : Run)
      → IsReady t s
      → IsLinked t csm
      → open_slots s.masks < fuel
      → Ends (csm ∷ []) s (g csm s)

  pub Matched_of_full : (s : Run) (i : ℕ) → IsSound t Source s → IsFull s i → Matched t Source i
  Matched_of_full s i sound is_full =
      full λ b w. sound.bits i b w (subst (λ v. bit b v ≡ true) (sym is_full) (bit-minus_one b w))

  -- A slot that was full before is left as it is.
  pub skip_Effect :
      (csm : CatSetMask) (s : Run) (linked : IsLinked t csm)
      → IsReady t s
      → IsFull s linked.at
      → Effect t Source (csm ∷ []) s (looked_up s)
  unfolding looked_up
  skip_Effect csm s linked ready is_full = record {
    growth = record {
      ready = record { room = ready.room; words = ready.words };
      fewer = omega arith;
      grows = λ i b w p. p;
      keeps = λ r m. m;
      sound = λ _ p. record { bits = p.bits; rules = p.rules };
    };
    applied = λ c m. subst (Applied (looked_up s)) (sym (Memᴰ.eq_of_singleton m)) here;
    closed = λ i f at h. inl h;
  }
    where
      here : Applied (looked_up s) csm
      here i b e w p =
          let same : linked.at ≡ i = ground (arith, linked.index_eq) in
          subst (λ v. bit b v ≡ true) (sym is_full ∙ ap (mask_at s) same) (bit-minus_one b w)

  reported_rule :
      (i : ℕ) (f : CatSetFilter)
      → IsFilter t i f
      → Matched t Source i
      → (r : ℕ) → Memᴰ r (map (λ (x : RuleFilterRec). x.rule_id) f.rule_set)
      → IsReported t Source r
  reported_rule i f at m r listed =
      let (x, in_set, has_id) = Memᴰ.of_map (λ (x : RuleFilterRec). x.rule_id) f.rule_set listed in
      record {
        at = i;
        filter = f;
        rule = x;
        matched = m;
        is_filter = at;
        listed = in_set;
        has_id = has_id;
      }

  pub report-Growth :
      (i : ℕ) (f : CatSetFilter) (s : Run)
      → IsFilter t i f
      → IsReady t s
      → Growth t Source (Matched t Source i) s (report f.rule_set s)
  unfolding report
  report-Growth i f s at ready = record {
    ready = record { room = ready.room; words = ready.words };
    fewer = omega arith;
    grows = λ i b w p. p;
    keeps = λ r m. Memᴰ.append_left _ m;
    sound = λ m p. record {
      bits = p.bits;
      rules = λ r listed. either m p r (Memᴰ.append_cases s.result listed);
    };
  }
    where
      ids : List ℕ
      ids = map (λ (x : RuleFilterRec). x.rule_id) f.rule_set

      either :
          Matched t Source i
          → IsSound t Source s
          → (r : ℕ) → Memᴰ r s.result ⊎ Memᴰ r ids
          → IsReported t Source r
      either m p r (inl old) = p.rules r old
      either m p r (inr new) = reported_rule i f at m r new
