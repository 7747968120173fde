-- ===== src/Objectmap/Dictionary/Paths.antt =====
-- AttributePathToAddress at a record that has a map and a mapper, such as the root.
use rulestone.Prelude.{ℕ, ◌≡◌, refl, ap, sym, ◌∙◌, subst, true, some, List, [], ◌∷◌, get_elem?}
use rulestone.Prelude.Int.{ℤ}
use rulestone.Prelude.Fault.{Outcome, done, panic, out_of_fuel, Returns, Returns-bind, ◌>>=◌}
use rulestone.Condition.Operand.{Text}
use rulestone.Objectmap.Path.{Result, ok, err, PathSegment, split_segments}
use rulestone.Objectmap.Path.Shape.{IsPath, Gives, split_segments-Gives}
use rulestone.Objectmap.Dictionary.{
  AttrDictionaryRec, Dictionary, walked, attribute_path_to_address,
}
use rulestone.Objectmap.Dictionary.Valid.{IsValid, Grows, same_refl}
use rulestone.Objectmap.Dictionary.Walk.{IsReady, IsWalked, walk-IsWalked}

-- What a call leaves: the records, which keep the invariant and what they had, and for an address the
-- same address again, at no change.
pub record IsRegistered (d : Dictionary) (cur : ℕ) (path : Text) (r : Dictionary × Result (List ℤ))
    : Type 0 where
  pub valid : IsValid r.0.heap
  pub grows : Grows d.heap r.0.heap
  pub again :
      (address : List ℤ)
      → r.1 ≡ ok address
      → attribute_path_to_address r.0 cur path ≡ done (r.0, ok address)

module _ (d : Dictionary) (cur : ℕ) (path : Text) (c : AttrDictionaryRec) (dict : List (Text × ℕ))
    (here : get_elem? d.heap cur ≡ some c) (mapped : c.dict ≡ some dict) (mapper : c.mapper ≡ true)
    (valid : IsValid d.heap) where
  calls_walked :
      (e : Dictionary) (r : AttrDictionaryRec) (m : Outcome (Result (List PathSegment)))
      → get_elem? e.heap cur ≡ some r
      → r.mapper ≡ true
      → split_segments true path ≡ m
      → attribute_path_to_address e cur path ≡ (m >>= walked e cur)
  unfolding attribute_path_to_address
  calls_walked e r m found set same = rw found (rw set (rw same refl))

  ready : (segments : List PathSegment) → IsReady segments c
  ready [] = tt
  ready (s ∷ segments) = (dict, mapped)

  on_split :
      (m : Outcome (Result (List PathSegment)))
      → split_segments true path ≡ m
      → Gives IsPath m
      → Returns (IsRegistered d cur path) (m >>= walked d cur)
  unfolding walked
  on_split (done (ok segments)) same shape =
      Returns-bind (IsWalked segments d.heap cur) (IsRegistered d cur path) _ _
        (walk-IsWalked segments d.heap cur c here (ready segments) shape valid)
        (λ (heap, address) w. record {
          valid = w.valid;
          grows = w.grows;
          again = λ other e.
              let k = w.grows cur c here in
              calls_walked (record d { heap = heap }) k.target (done (ok segments)) k.found
                (k.same.mapper ∙ mapper) same
              ∙ rw w.again (ap (λ r. done (record d { heap = heap }, r)) e);
        })
  on_split (done (err e)) same shape = record {
    valid = valid;
    grows = λ q r f. record { target = r; found = f; same = same_refl r };
    again = λ address f. absurd (cc);
  }
  on_split panic same shape = absurd shape
  on_split out_of_fuel same shape = absurd shape

  -- At a record with a map and a mapper, of a heap that has the invariant, AttributePathToAddress
  -- returns for every path, without a panic. The heap keeps the invariant and its records; and when the
  -- path has an address, the call made again gives the same address and changes nothing.
  pub attribute_path_to_address-IsRegistered :
      Returns (IsRegistered d cur path) (attribute_path_to_address d cur path)
  attribute_path_to_address-IsRegistered =
      subst (Returns (IsRegistered d cur path))
        (sym (calls_walked d c (split_segments true path) here mapper refl))
        (on_split (split_segments true path) refl (split_segments-Gives path))
