-- ===== src/Cateng/Engine/Propagation.antt =====
-- The branch of applyCatSetMasks for a set that a write completes, as one effect.
use mathlib.Core.List.{Memᴰ}
use mathlib.Core.List.Memᴰ
use rulestone.Prelude.{ℕ, ◌≡◌, refl, sym, ◌∙◌, subst, ◌⊎◌, inl, inr, false, [], ◌∷◌, arith, ◌==◌}
use rulestone.Types.{minus_one}
use rulestone.Cateng.MaskArray.{CatSetMask}
use rulestone.Cateng.Tables.{RuleFilterRec, CatSetFilter, FilterTables}
use rulestone.Cateng.Engine.{Run, count_match, report}
use rulestone.Cateng.Engine.Fired.{IsFilter, Fired, chained, Matched}
use rulestone.Cateng.Engine.Effect.{
  mask_at, IsFull, Applied, IsClosed, IsLinked, IsReady, IsSound, Growth, AllFired, Effect,
  Growth-trans, Growth-weaken, IsFull-stays, Applied-later, IsClosed-later,
}
use rulestone.Cateng.Engine.Store.{
  new_mask, stored, stored_self, stored-Applied, stored-Growth, stored-IsFull,
}
use rulestone.Cateng.Engine.Branches.{Matched_of_full, report-Growth}

module _ (t : FilterTables) (Source : CatSetMask → Type 0) where
  -- A slot that a write fills, and what is done from there on: `m` is the state in which the match
  -- is counted, and `s₂` the one after the call for the synthetic categories.
  module _ (s : Run) (csm : CatSetMask) (ready : IsReady t s) (linked : IsLinked t csm)
      (not_full : (mask_at s linked.at == minus_one) ≡ false)
      (fills : new_mask t Source s csm ready linked ≡ minus_one) where
    abbrev before : Run
    before = stored t Source s csm ready linked

    pub before-IsFull : IsFull before linked.at
    before-IsFull = stored_self t Source s csm ready linked ∙ fills

    pub counted_Growth : Growth t Source (Fired t Source csm) s (count_match before)
    unfolding count_match
    counted_Growth =
        let g = stored-Growth t Source s csm ready linked not_full in
        record {
          ready = record { room = g.ready.room; words = g.ready.words };
          fewer = g.fewer;
          grows = g.grows;
          keeps = g.keeps;
          sound = λ fired p. let q = g.sound fired p in record { bits = q.bits; rules = q.rules };
        }

    counted-IsFull : IsFull (count_match before) linked.at
    unfolding count_match
    counted-IsFull = before-IsFull

    module _ (s₂ : Run)
        (e : Effect t Source linked.filter.cat_set_masks (count_match before) s₂) where
      chain : IsSound t Source (count_match before) → AllFired t Source linked.filter.cat_set_masks
      chain sound c m =
          chained (Matched_of_full t Source (count_match before) linked.at sound counted-IsFull)
            linked.is_filter m

      IsFull-after : IsFull s₂ linked.at
      IsFull-after = IsFull-stays t Source linked.at e.growth counted-IsFull

      whole_Growth : Growth t Source (Fired t Source csm) s (report linked.filter.rule_set s₂)
      whole_Growth =
          Growth-trans t Source (λ fired. fired)
            (λ _ sound. Matched_of_full t Source s₂ linked.at sound IsFull-after)
            (Growth-trans t Source (λ fired. fired) (λ _ sound. chain sound) counted_Growth
              e.growth)
            (report-Growth t Source linked.at linked.filter s₂ linked.is_filter e.growth.ready)

      reported_Growth :
          Growth t Source (Matched t Source linked.at) s₂ (report linked.filter.rule_set s₂)
      reported_Growth =
          report-Growth t Source linked.at linked.filter s₂ linked.is_filter e.growth.ready

      IsClosed-here : IsClosed linked.filter (report linked.filter.rule_set s₂)
      unfolding report
      IsClosed-here = record {
        applied = λ c m. e.applied c m;
        reported =
            λ r m. Memᴰ.append_right s₂.result (Memᴰ.map (λ (x : RuleFilterRec). x.rule_id) m);
      }

      IsClosed-there :
          (i : ℕ) (f : CatSetFilter)
          → IsFilter t i f
          → IsFull s₂ i
          → IsFull s i ⊎ IsClosed f (report linked.filter.rule_set s₂)
      IsClosed-there i f at h = elim (e.closed i f at h) [
        | inr c ↦ inr (IsClosed-later t Source reported_Growth c)
        | inl old ↦ elim (stored-IsFull t Source s csm ready linked i (counted old)) [
          | inl earlier ↦ inl earlier
          | inr (same, _) ↦ inr (
              subst (λ g. IsClosed g (report linked.filter.rule_set s₂)) (same_filter same)
                IsClosed-here)
        ]
      ]
        where
          counted : IsFull (count_match before) i → IsFull before i
          counted p = unfold count_match in p

          same_filter : linked.at ≡ i → linked.filter ≡ f
          same_filter same = ground (arith, linked.is_filter)

      pub whole_Effect : Effect t Source (csm ∷ []) s (report linked.filter.rule_set s₂)
      unfolding report count_match
      whole_Effect = record {
        growth = Growth-weaken t Source (λ fired. fired csm (Memᴰ.head refl)) whole_Growth;
        applied = λ c m.
            subst (Applied (report linked.filter.rule_set s₂)) (sym (Memᴰ.eq_of_singleton m))
              (Applied-later t Source csm e.growth (stored-Applied t Source s csm ready linked));
        closed = IsClosed-there;
      }
