-- ===== src/Types/Slices.antt =====
-- types/types.go: Reduce, FilterSlice, FindFirstInSlice and MapSlice, and what callers rely on.
use rulestone.Prelude.{Bool, Option, none, some, List, [], ◌∷◌, if◌then◌else◌}

module _ {ℓ κ} {T : Type ℓ} {M : Type κ} where
  unfoldable pub reduce : List T → (M → T → M) → M → M
  reduce [] f acc = acc
  reduce (v ∷ s) f acc = reduce s f (f acc v)

  unfoldable pub map_slice : List T → (T → M) → List M
  map_slice [] f = []
  map_slice (e ∷ a) f = f e ∷ map_slice a f

module _ {ℓ} {T : Type ℓ} where
  unfoldable pub filter_slice : List T → (T → Bool) → List T
  filter_slice [] f = []
  filter_slice (e ∷ a) f = if f e then e ∷ filter_slice a f else filter_slice a f

  unfoldable pub find_first_in_slice : List T → (T → Bool) → Option T
  find_first_in_slice [] f = none
  find_first_in_slice (e ∷ a) f = if f e then some e else find_first_in_slice a f
