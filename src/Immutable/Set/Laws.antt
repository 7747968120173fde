-- ===== src/Immutable/Set/Laws.antt =====
-- What the code relies on of a hash set of github.com/zyedidia/generic, for elements of one type.
use mathlib.Core.List.{Memᴰ}
use rulestone.Prelude.{◌≡◌, ◌↔◌, ◌⊎◌, true, false, not, ◌&&◌, ◌||◌, []}
use rulestone.Immutable.Set.{SetElement, Hashset}

-- `IsTable` says that a table was made by `of` with the hash and the equality of the type.
pub record Laws (h : Hashset) (K : Type 0) (e : SetElement K) : Type 1 where
  pub IsTable : h.Table K → Type 0
  pub of-IsTable : IsTable (h.of K e [])
  pub put-IsTable : (t : h.Table K) (k : K) → IsTable t → IsTable (h.put K t k)
  pub remove-IsTable : (t : h.Table K) (k : K) → IsTable t → IsTable (h.remove K t k)
  pub has-of : (k : K) → h.has K (h.of K e []) k ≡ false
  pub has-put :
      (t : h.Table K) (j k : K)
      → IsTable t
      → h.has K (h.put K t j) k ≡ (e.equals j k || h.has K t k)
  pub has-remove :
      (t : h.Table K) (j k : K)
      → IsTable t
      → h.has K (h.remove K t j) k ≡ (not (e.equals j k) && h.has K t k)
  pub size_zero : (t : h.Table K) (k : K) → IsTable t → h.size K t ≡ 0 → h.has K t k ≡ false
  pub has_iff :
      (t : h.Table K) (k : K)
      → IsTable t
      → (h.has K t k ≡ true) ↔ ((j : K) × Memᴰ j (h.each K t) × (e.equals j k ≡ true))
  pub each-of : (k : K) → Memᴰ k (h.each K (h.of K e [])) → ⊥
  pub each-put :
      (t : h.Table K) (j k : K)
      → IsTable t
      → Memᴰ k (h.each K (h.put K t j))
      → Memᴰ k (h.each K t) ⊎ (k ≡ j)
