-- ===== src/Objectmap/Address.antt =====
-- Addresses: AddressToDictionaryRec, AddressToFullPath, AddressToFullAddress, ExtendAddress and
-- AddressMatchKey. In an address the index of an attribute is followed by that of an array element.
pub mod MatchKey
use rulestone.Prelude.{
  ℕ, zero, suc, ◌-◌, Bool, true, false, Option, none, some, List, [], ◌∷◌, ◌++◌, length, get_elem?,
  ltb, take, if◌then◌else◌,
}
use rulestone.Prelude.Int.{ℤ, pos, negsuc}
use rulestone.Prelude.Fault.{Outcome, done, panic, or_panic, ◌>>=◌}
use rulestone.Condition.Operand.{Text}
use rulestone.Condition.Operand.Numerals.{text_eq, itoa}
use rulestone.Objectmap.Path.{minus_one}
use rulestone.Objectmap.Dictionary.{AttrDictionaryRec, Heap}

-- s[i], which panics out of range.
unfoldable pub at {ℓ} : {A : Type ℓ} → List A → ℤ → Outcome A
at s (pos i) = or_panic (get_elem? s i)
at s (negsuc i) = panic

-- The record that dictIndex has at a position.
unfoldable pub child : Heap → ℕ → ℤ → Outcome ℕ
unfolding at
child heap cur i = do r ← or_panic (get_elem? heap cur); at r.dict_index i

unfoldable pub address_to_dictionary_rec : Heap → ℕ → List ℤ → Outcome ℕ
unfolding child
address_to_dictionary_rec heap cur [] = done cur
address_to_dictionary_rec heap cur (i ∷ []) = child heap cur i
address_to_dictionary_rec heap cur (i ∷ element ∷ address) = do
  next ← child heap cur i
  address_to_dictionary_rec heap next address

-- result[0:len(result)-2]
unfoldable pub drop_brackets : Text → Outcome Text
drop_brackets s = if ltb (length s) 2 then panic else done (take (length s - 2) s)

-- The path with one more attribute.
unfoldable pub add_attribute : Text → Text → Text
add_attribute result attribute = if text_eq result [] then attribute else result ++ b'.' ∷ attribute

unfoldable pub full_path_from : Heap → ℕ → Text → List ℤ → Outcome Text
unfolding child drop_brackets add_attribute
full_path_from heap cur result [] = done result
full_path_from heap cur result (s ∷ []) = do
  next ← child heap cur s
  r ← or_panic (get_elem? heap next)
  done (add_attribute result r.attribute)
full_path_from heap cur result (s ∷ element ∷ address) = do
  next ← child heap cur s
  r ← or_panic (get_elem? heap next)
  shorter ← drop_brackets (add_attribute result r.attribute)
  full_path_from heap next (shorter ++ b'[' ∷ itoa element ++ b']' ∷ []) address

unfoldable pub address_to_full_path : Heap → ℕ → List ℤ → Outcome Text
unfolding full_path_from
address_to_full_path heap cur address = do
  r ← or_panic (get_elem? heap cur)
  full_path_from heap cur r.path address

unfoldable pub address_to_full_address : AttrDictionaryRec → List ℤ → List ℤ
address_to_full_address r address = elim r.address [
  | [] ↦ address
  | i ∷ is ↦ (i ∷ is) ++ minus_one ∷ address
]

unfoldable pub extend_address : List ℤ → List ℤ → List ℤ
extend_address address index = address ++ index

-- What follows the first number of a key.
unfoldable pub key_rest : List ℤ → Text
key_rest [] = []
key_rest (element ∷ []) = []
key_rest (element ∷ i ∷ address) = b'.' ∷ itoa i ++ key_rest address

-- The indices of the attributes with dots between them; those of array elements are left out.
unfoldable pub address_match_key : List ℤ → Text
unfolding key_rest
address_match_key [] = []
address_match_key (i ∷ address) = itoa i ++ key_rest address
