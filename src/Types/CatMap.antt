-- ===== src/Types/CatMap.antt =====
-- Go's built-in maps with categories for keys, as association lists in the order of insertion.
use rulestone.Prelude.{◌≡◌, refl, List, [], ◌∷◌, Option, none, some, arith, if◌then◌else◌}
use rulestone.Prelude.Int.{◌==ℤ◌, ==ℤ_iff}
use rulestone.Types.{Category}

module _ {ℓ} {V : Type ℓ} where
  -- v, ok := m[cat]
  unfoldable pub lookup : Category → List (Category × V) → Option V
  lookup cat [] = none
  lookup cat ((c, v) ∷ m) = if c ==ℤ cat then some v else lookup cat m

  -- m[cat] = v
  unfoldable pub put : Category → V → List (Category × V) → List (Category × V)
  put cat v [] = (cat, v) ∷ []
  put cat v ((c, w) ∷ m) = if c ==ℤ cat then (cat, v) ∷ m else (c, w) ∷ put cat v m

  unfoldable pub keys : List (Category × V) → List Category
  keys [] = []
  keys ((c, v) ∷ m) = c ∷ keys m

  pub lookup-put :
      (k j : Category) (v : V) (m : List (Category × V))
      → lookup j (put k v m) ≡ (if k ==ℤ j then some v else lookup j m)
  unfolding lookup put
  lookup-put k j v [] = refl
  lookup-put k j v ((i, w) ∷ m) =
      ground (arith, ==ℤ_iff k j, ==ℤ_iff i k, ==ℤ_iff i j, lookup-put k j v m)
