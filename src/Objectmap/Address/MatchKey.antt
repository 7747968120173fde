-- ===== src/Objectmap/Address/MatchKey.antt =====
-- Which addresses have the same key.
use mathlib.Core.List.{append-nil}
use rulestone.Prelude.{
  ℕ, zero, suc, ◌+◌, ◌/◌, ◌%◌, ◌≡◌, ◌≤◌, ◌<◌, length, length-append, refl, ap, sym, ◌∙◌, ◌↔◌, some,
  List, [], ◌∷◌, ◌++◌, map, ltb, Bool-cases, inl, inr, All, arith,
}
use rulestone.Prelude.Int.{ℤ, pos, negsuc, IsInt64}
use rulestone.Condition.Operand.{Text}
use rulestone.Condition.Operand.Numerals.{digits_of, itoa, parse_int}
use rulestone.Condition.Operand.RoundTrip.{parse_int-itoa}
use rulestone.Objectmap.Strings.{split, join}
use rulestone.Objectmap.Strings.Split.{IsFree, split-join}
use rulestone.Objectmap.Address.{address_match_key}

-- The indices of the attributes in an address.
unfoldable pub attributes : List ℤ → List ℤ
attributes [] = []
attributes (i ∷ []) = i ∷ []
attributes (i ∷ element ∷ address) = i ∷ attributes address

digits_of-IsFree :
    (fuel n : ℕ) (rest : Text) → IsFree b'.' rest → IsFree b'.' (digits_of fuel n rest)
unfolding digits_of
digits_of-IsFree zero n rest h = h
digits_of-IsFree (suc f) n rest h = elim (Bool-cases (ltb n 10)) [
  | inl small ↦ rw small (ground arith, h)
  | inr large ↦ rw large (digits_of-IsFree f (n / 10) ((n % 10 + 48) ∷ rest) (ground arith, h))
]

itoa-IsFree : (v : ℤ) → IsFree b'.' (itoa v)
unfolding itoa
itoa-IsFree (pos n) = digits_of-IsFree 20 n [] tt
itoa-IsFree (negsuc n) = (refl, digits_of-IsFree 20 (n + 1) [] tt)

itoa_injective : (v w : ℤ) → IsInt64 v → IsInt64 w → itoa v ≡ itoa w → v ≡ w
itoa_injective v w hv hw e =
    let same : some v ≡ some w =
      sym (parse_int-itoa v hv.0 hv.1) ∙ ap parse_int e ∙ parse_int-itoa w hw.0 hw.1 in
    cc

map-itoa_injective :
    (vs ws : List ℤ) → All IsInt64 vs → All IsInt64 ws → map itoa vs ≡ map itoa ws → vs ≡ ws
map-itoa_injective [] [] hv hw e = refl
map-itoa_injective [] (w ∷ ws) hv hw e = cc
map-itoa_injective (v ∷ vs) [] hv hw e = cc
map-itoa_injective (v ∷ vs) (w ∷ ws) hv hw e =
    cc (itoa_injective v w hv.0 hw.0 (cc), map-itoa_injective vs ws hv.1 hw.1 (cc))

-- A key is the numbers of the attributes with dots between them.
address_match_key-eq-join :
    (address : List ℤ) → address_match_key address ≡ join (map itoa (attributes address)) b'.'
unfolding address_match_key join attributes
address_match_key-eq-join [] = refl
address_match_key-eq-join (i ∷ []) = append-nil (itoa i)
address_match_key-eq-join (i ∷ element ∷ []) = append-nil (itoa i)
address_match_key-eq-join (i ∷ element ∷ j ∷ []) =
    ap (λ rest. itoa i ++ b'.' ∷ rest) (address_match_key-eq-join (j ∷ []))
address_match_key-eq-join (i ∷ element ∷ j ∷ next ∷ address) =
    ap (λ rest. itoa i ++ b'.' ∷ rest) (address_match_key-eq-join (j ∷ next ∷ address))

attributes-IsInt64 : (address : List ℤ) → All IsInt64 address → All IsInt64 (attributes address)
unfolding attributes
attributes-IsInt64 [] h = h
attributes-IsInt64 (i ∷ []) h = h
attributes-IsInt64 (i ∷ element ∷ address) h = (h.0, attributes-IsInt64 address h.1.1)

IsFree-numbers : (vs : List ℤ) → All (IsFree b'.') (map itoa vs)
IsFree-numbers [] = tt
IsFree-numbers (v ∷ vs) = (itoa-IsFree v, IsFree-numbers vs)

length-le-digits_of : (f n : ℕ) (rest : Text) → length rest ≤ length (digits_of f n rest)
unfolding digits_of
length-le-digits_of zero n rest = omega arith
length-le-digits_of (suc f) n rest = elim (Bool-cases (ltb n 10)) [
  | inl small ↦ rw small (omega arith)
  | inr large ↦ rw large (omega (arith, length-le-digits_of f (n / 10) ((n % 10 + 48) ∷ rest)))
]

lt-length-digits_of : (f n : ℕ) → 0 < length (digits_of (suc f) n [])
unfolding digits_of
lt-length-digits_of f n = elim (Bool-cases (ltb n 10)) [
  | inl small ↦ rw small (omega arith)
  | inr large ↦ rw large (omega (arith, length-le-digits_of f (n / 10) ((n % 10 + 48) ∷ [])))
]

lt-length-itoa : (v : ℤ) → 0 < length (itoa v)
unfolding itoa
lt-length-itoa (pos n) = lt-length-digits_of 19 n
lt-length-itoa (negsuc n) = omega arith

lt-length-join : (v : ℤ) (vs : List ℤ) → 0 < length (join (map itoa (v ∷ vs)) b'.')
unfolding join
lt-length-join v [] = lt-length-itoa v
lt-length-join v (w ∷ vs) =
    omega (arith, lt-length-itoa v, length-append (itoa v) (b'.' ∷ join (map itoa (w ∷ vs)) b'.'))

length-join_nil : length (join [] b'.') ≡ 0
unfolding join
length-join_nil = refl

join_injective :
    (vs ws : List ℤ) → join (map itoa vs) b'.' ≡ join (map itoa ws) b'.' → map itoa vs ≡ map itoa ws
join_injective [] [] e = refl
join_injective [] (w ∷ ws) e =
    absurd (omega (arith, ap length e, length-join_nil, lt-length-join w ws))
join_injective (v ∷ vs) [] e =
    absurd (omega (arith, ap length e, length-join_nil, lt-length-join v vs))
join_injective (v ∷ vs) (w ∷ ws) e =
    sym (split-join (itoa v) (map itoa vs) b'.' (IsFree-numbers (v ∷ vs)))
    ∙ ap (λ s. split s b'.') e
    ∙ split-join (itoa w) (map itoa ws) b'.' (IsFree-numbers (w ∷ ws))

-- Two addresses of 64-bit numbers have the same key exactly when they have the same attributes in the
-- same order, whatever array elements they name.
pub address_match_key_iff :
    (a b : List ℤ)
    → All IsInt64 a
    → All IsInt64 b
    → (address_match_key a ≡ address_match_key b) ↔ (attributes a ≡ attributes b)
address_match_key_iff a b ha hb = (
  λ e.
      map-itoa_injective (attributes a) (attributes b) (attributes-IsInt64 a ha)
        (attributes-IsInt64 b hb)
        (join_injective (attributes a) (attributes b)
          (sym (address_match_key-eq-join a) ∙ e ∙ address_match_key-eq-join b)),
  λ e.
      address_match_key-eq-join a
      ∙ ap (λ vs. join (map itoa vs) b'.') e
      ∙ sym (address_match_key-eq-join b),
)
