-- ===== src/Cateng/SliceMap.antt =====
-- cateng/builder.go: SliceMap, a slice that is used as a map from small integers and grows on
-- demand. A slice is its backing array and the length in use; the array's length is the capacity.
pub mod Laws
use rulestone.Prelude.{
  ℕ, zero, suc, ◌+◌, ◌-◌, ◌≤◌, ◌<◌, ◌≡◌, ◌≢◌, refl, List, [], ◌∷◌, ◌++◌, arith, ltb, ◌==◌, length,
  get_elem?, get_or, set, replicate, take, length-set, length-append, length-replicate,
  get_or-set_self, get_or-set_ne, get_or-replicate, if◌then◌else◌, Bool-cases, inl, inr,
}
use rulestone.Prelude.Int.{ℤ, pos, negsuc}
use rulestone.Prelude.Fault.{Outcome, done, panic, or_panic}

pub record SliceMap {ℓ} (T : Type ℓ) : Type ℓ where
  pub backing : List T
  pub len : ℕ

-- `zero_value` is Go's zero value of the element type, which `make` fills a new array with.
module _ {ℓ} {T : Type ℓ} (zero_value : T) where
  unfoldable pub empty : SliceMap T
  empty = record { backing = []; len = 0 }

  -- `copy(newSlice, s)` over a fresh array of `index + 1` zero values, then the write.
  grow : SliceMap T → ℕ → T → SliceMap T
  grow s index value =
      let copied = take s.len s.backing ++ replicate (index + 1 - s.len) zero_value in
      record { backing = set copied index value; len = index + 1 }

  unfoldable pub set_at : SliceMap T → ℤ → T → Outcome (SliceMap T)
  unfolding grow
  set_at s (negsuc n) value = panic
  set_at s (pos index) value =
      if ltb index s.len
      then done (record s { backing = set s.backing index value })
      else if ltb index (length s.backing)
      then done (record { backing = set s.backing index value; len = index + 1 })
      else done (grow s index value)

  -- s[index] under the caller's test `index < len(s)`, and the zero value when it fails.
  unfoldable pub get_at : SliceMap T → ℤ → Outcome T
  get_at s (negsuc n) = panic
  get_at s (pos index) =
      if ltb index s.len then or_panic (get_elem? s.backing index) else done zero_value

  -- What is stored at an index, as a total function.
  unfoldable pub entry : SliceMap T → ℕ → T
  entry s index = if ltb index s.len then get_or s.backing index zero_value else zero_value

  -- The length is within the capacity, and the array holds zero values beyond the length.
  pub record IsValid (s : SliceMap T) : Type ℓ where
    pub fits : s.len ≤ length s.backing
    pub clear : (i : ℕ) → s.len ≤ i → get_or s.backing i zero_value ≡ zero_value
