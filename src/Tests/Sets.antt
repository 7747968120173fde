-- ===== src/Tests/Sets.antt =====
-- immutable/set.go on sets of categories.
use mathlib.Core.List.Permᴰ.{swap}
use rulestone.Prelude.{◌≡◌, refl, true, [], ◌∷◌}
use rulestone.Prelude.Int.{pos}
use rulestone.Immutable.Set.{from_hash_set, equals}
use rulestone.Immutable.Set.Order.{from_hash_set-Perm}
use rulestone.Types.{Category}
use rulestone.Types.AndOrSet.{category_element}
use rulestone.Tests.Tables.{hashset, digest}

abbrev ascending : hashset.Table Category
ascending = hashset.of Category category_element (pos 1 ∷ pos 2 ∷ [])

abbrev descending : hashset.Table Category
descending = hashset.of Category category_element (pos 2 ∷ pos 1 ∷ [])

from_hash_set-Perm_example :
    ((from_hash_set hashset digest ascending).hash ≡ (from_hash_set hashset digest descending).hash)
    × (equals hashset
          (from_hash_set hashset digest ascending)
          (from_hash_set hashset digest descending)
        ≡ true)
unfolding category_element
from_hash_set-Perm_example = from_hash_set-Perm hashset digest ascending descending (swap refl refl)
