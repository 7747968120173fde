-- ===== src/Immutable/Set/Order.antt =====
-- The hash of a set and the order in which its table visits the elements.
use mathlib.Core.List.Permᴰ.{nil, cons, swap, trans}
use mathlib.Core.List.{Permᴰ}
use rulestone.Prelude.{ℕ, ◌≡◌, refl, ap, ◌∙◌, true, List, bit_xor, ==_iff}
use rulestone.Prelude.Xor.{bit_xor-swap}
use rulestone.Immutable.Hash.{Digest, rehash}
use rulestone.Immutable.Set.{SetElement, Hashset, hash_from, from_hash_set, equals}

module _ (h : Hashset) (d : Digest) {K : Type 0} ⦃element : SetElement K⦄ where
  -- The hash with one more element.
  abbrev mixed : ℕ → K → ℕ
  mixed hash k = bit_xor hash (rehash d (element.get_hash k))

  hash_from-Perm :
      (hash : ℕ) {xs ys : List K} → Permᴰ xs ys → hash_from h d hash xs ≡ hash_from h d hash ys
  unfolding hash_from
  hash_from-Perm hash nil = refl
  hash_from-Perm hash (cons {l₁ = xs} e p) =
      ap (λ k. hash_from h d (mixed hash k) xs) e ∙ hash_from-Perm (mixed hash _) p
  hash_from-Perm hash (swap {a} {b} {a' = other} {l = l} e f) =
      ap (λ start. hash_from h d start l)
        (bit_xor-swap hash _ _
          ∙ ap (λ k. mixed (mixed hash k) a) f
          ∙ ap (λ k. mixed (mixed hash other) k) e)
  hash_from-Perm hash (trans p q) = hash_from-Perm hash p ∙ hash_from-Perm hash q

  -- Sets that are made from two tables are equal, with the same hash, when the tables visit the same
  -- elements in whatever order.
  pub from_hash_set-Perm :
      (table other : h.Table K)
      → Permᴰ (h.each K table) (h.each K other)
      → ((from_hash_set h d table).hash ≡ (from_hash_set h d other).hash)
        × (equals h (from_hash_set h d table) (from_hash_set h d other) ≡ true)
  unfolding from_hash_set equals
  from_hash_set-Perm table other same =
      let same_hash = hash_from-Perm 0 same in (same_hash, (==_iff _ _).1 same_hash)
