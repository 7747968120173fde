-- ===== src/Cateng/Engine/Fixpoint.antt =====
-- The slots that are full after a run, and the sets that are matched.
use mathlib.Core.List.{Memᴰ}
use mathlib.Core.List.Memᴰ
use rulestone.Prelude.{
  ℕ, ◌+◌, ◌<◌, ◌≡◌, ap, subst, inl, inr, ◌↔◌, true, List, arith, length, get_or-replicate,
  length-replicate,
}
use rulestone.Prelude.Bits.{bit, bit_below_zero}
use rulestone.Types.{Category}
use rulestone.Cateng.MaskArray.{CatSetMask}
use rulestone.Cateng.Tables.{CatSetFilter, FilterTables}
use rulestone.Cateng.Engine.{Run, Metrics, start}
use rulestone.Cateng.Engine.Fired.{
  IsFilter, Fired, source, chained, IsOn, on, Matched, full, IsReported,
}
use rulestone.Cateng.Engine.Effect.{
  mask_at, IsFull, Applied, eq-minus_one, IsClosed, IsReady, IsSound, Effect,
}
use rulestone.Cateng.Engine.Event.{brought, Brings}

module _ (t : FilterTables) where
  pub start_mask : (metrics : Metrics) (i : ℕ) → mask_at (start t metrics) i ≡ 0
  unfolding start
  start_mask metrics i = get_or-replicate {A = ℕ} (length t.neg_cats + length t.cat_set_filters) i 0

  pub start-IsReady : (metrics : Metrics) → IsReady t (start t metrics)
  unfolding start
  start-IsReady metrics = record {
    room = omega (arith, length-replicate {A = ℕ} (length t.neg_cats + length t.cat_set_filters) 0);
    words = λ i. omega (arith, start_mask metrics i);
  }

  -- After a run from the start that has applied what the event brings, the full slots are the
  -- matched ones.
  module _ (cats : List Category) (metrics : Metrics) (s : Run)
      (e : Effect t (Brings t cats) (brought t cats) (start t metrics) s) where
    not_full_at_start : (i : ℕ) → IsFull (start t metrics) i → ⊥
    not_full_at_start i h = omega (arith, start_mask metrics i)

    start-IsSound : IsSound t (Brings t cats) (start t metrics)
    unfolding start
    start-IsSound = record {
      bits = λ i b w h. cc (ap (bit b) (start_mask metrics i), bit_below_zero b);
      rules = λ r m. absurd (Memᴰ.not-nil m);
    }

    IsClosed-of_full : (i : ℕ) (f : CatSetFilter) → IsFilter t i f → IsFull s i → IsClosed f s
    IsClosed-of_full i f at is_full = elim (e.closed i f at is_full) [
      | inl early ↦ absurd (not_full_at_start i early)
      | inr c ↦ c
    ]

    mutual
      Fired-Applied : {csm : CatSetMask} → Fired t (Brings t cats) csm → Applied s csm
      Fired-Applied (source {csm} m) = e.applied csm m
      Fired-Applied (chained {i} {f} {csm} matched at m) =
          (IsClosed-of_full i f at (Matched-IsFull matched)).applied csm m

      IsOn-bit : {i b : ℕ} → IsOn t (Brings t cats) i b → b < 64 → bit b (mask_at s i) ≡ true
      IsOn-bit (on {i} {b} fired index h) w = Fired-Applied fired i b index w h

      Matched-IsFull : {i : ℕ} → Matched t (Brings t cats) i → IsFull s i
      Matched-IsFull (full {i} h) =
          eq-minus_one (mask_at s i) (e.growth.ready.words i) (λ b w. IsOn-bit (h b w) w)

    pub reported_iff : (r : ℕ) → Memᴰ r s.result ↔ IsReported t (Brings t cats) r
    reported_iff r = (
      (e.growth.sound (λ csm m. source m) start-IsSound).rules r,
      λ w.
          subst (λ k. Memᴰ k s.result) w.has_id
            ((IsClosed-of_full w.at w.filter w.is_filter (Matched-IsFull w.matched)).reported w.rule
              w.listed),
    )
