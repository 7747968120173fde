-- ===== src/Objectmap/Event/Frames.antt =====
-- Values that fit the records: a slot for each attribute, slices of frames where it is an array.
use rulestone.Prelude.{
  ℕ, zero, suc, ◌≡◌, refl, ap, sym, ◌∙◌, subst, lt→ltb, true, false, some, List, [], ◌∷◌, length,
  get_elem?, lt-length_of_get_elem?, arith,
}
use rulestone.Prelude.Int.{pos}
use rulestone.Prelude.Fault.{Returns}
use rulestone.Objectmap.Dictionary.{AttrDictionaryRec, Heap}
use rulestone.Objectmap.Dictionary.Valid.{has_map}
use rulestone.Objectmap.Values
use rulestone.Objectmap.Values.{Value, Values, nil, scalar, slice, end, item, count, get, nils}
use rulestone.Objectmap.Event.{store, read, extended}

module _ {S : Type 0} (heap : Heap) where
  -- A value at the slot of the record `p`, the values at the slots of some records, and the elements of
  -- an array whose record is `p`.
  mutual
    pub data Fits : ℕ → Value S → Type 0 where
      fits_nil : {p : ℕ} → Fits p nil
      fits_scalar :
          {p : ℕ} {s : S} (r : AttrDictionaryRec)
          → get_elem? heap p ≡ some r
          → has_map r ≡ false
          → Fits p (scalar s)
      fits_slice :
          {p : ℕ} {vs : Values S} (r : AttrDictionaryRec)
          → get_elem? heap p ≡ some r
          → has_map r ≡ true
          → FitElements r.dict_index vs
          → Fits p (slice vs)

    pub data FitSlots : List ℕ → Values S → Type 0 where
      fits_end : FitSlots [] end
      fits_item :
          {p : ℕ} {ps : List ℕ} {v : Value S} {vs : Values S}
          → Fits p v
          → FitSlots ps vs
          → FitSlots (p ∷ ps) (item v vs)

    pub data FitElements : List ℕ → Values S → Type 0 where
      fits_none : {index : List ℕ} → FitElements index end
      fits_frame :
          {index : List ℕ} {vs rest : Values S}
          → FitSlots index vs
          → FitElements index rest
          → FitElements index (item (slice vs) rest)

  pub nils-FitSlots : (index : List ℕ) → FitSlots index (nils (length index))
  unfolding nils
  nils-FitSlots [] = fits_end
  nils-FitSlots (p ∷ ps) = fits_item fits_nil (nils-FitSlots ps)

  pub put-FitSlots :
      {index : List ℕ} {vs : Values S} (i p : ℕ) (v : Value S)
      → FitSlots index vs
      → get_elem? index i ≡ some p
      → Fits p v
      → FitSlots index (Values.put vs i v)
  unfolding Values.put
  put-FitSlots i p v fits_end at fit = cc
  put-FitSlots zero p v (fits_item {p = q} {v = w} f fs) at fit =
      let e : q ≡ p = cc in fits_item (subst (λ r. Fits r v) (sym e) fit) fs
  put-FitSlots (suc i) p v (fits_item f fs) at fit = fits_item f (put-FitSlots i p v fs at fit)

  pub get-FitSlots :
      {index : List ℕ} {vs : Values S} (i p : ℕ)
      → FitSlots index vs
      → get_elem? index i ≡ some p
      → (v : Value S) × (get vs i ≡ some v) × Fits p v
  unfolding get
  get-FitSlots i p fits_end at = cc
  get-FitSlots zero p (fits_item {p = q} {v = w} f fs) at =
      let e : q ≡ p = cc in (w, refl, subst (λ r. Fits r w) e f)
  get-FitSlots (suc i) p (fits_item f fs) at = get-FitSlots i p fs at

  count-FitSlots : {index : List ℕ} {vs : Values S} → FitSlots index vs → count vs ≡ length index
  unfolding count
  count-FitSlots fits_end = refl
  count-FitSlots (fits_item f fs) = ap suc (count-FitSlots fs)

  -- A slot of a listed record is written and read without a panic.
  pub store-FitSlots :
      {index : List ℕ} {vs : Values S} (i p : ℕ) (v : Value S)
      → FitSlots index vs
      → get_elem? index i ≡ some p
      → Fits p v
      → Returns (FitSlots index) (store vs (pos i) v)
  unfolding store
  store-FitSlots {index} {vs} i p v fs at fit =
      rw (lt→ltb i (count vs) (omega (arith, count-FitSlots fs, lt-length_of_get_elem? index i at)))
        (put-FitSlots i p v fs at fit)

  pub read-FitSlots :
      {index : List ℕ} {vs : Values S} (i p : ℕ)
      → FitSlots index vs
      → get_elem? index i ≡ some p
      → Returns (Fits p) (read vs (pos i))
  unfolding read
  read-FitSlots i p fs at = let (v, found, fit) = get-FitSlots i p fs at in rw found fit

  add-FitElements :
      {index : List ℕ} {vs new : Values S}
      → FitElements index vs
      → FitSlots index new
      → FitElements index (Values.add vs (slice new))
  unfolding Values.add
  add-FitElements fits_none fit = fits_frame fit fits_none
  add-FitElements (fits_frame f fs) fit = fits_frame f (add-FitElements fs fit)

  -- One more element of an array.
  pub extended-Fits :
      {p : ℕ} {old : Value S} (new : Values S) (r : AttrDictionaryRec)
      → get_elem? heap p ≡ some r
      → has_map r ≡ true
      → Fits p old
      → FitSlots r.dict_index new
      → Returns (Fits p) (extended old new)
  unfolding extended
  extended-Fits new r found mapped fits_nil fit =
      fits_slice r found mapped (fits_frame fit fits_none)
  extended-Fits new r found mapped (fits_scalar t found' bare) fit =
      let e : t ≡ r = cc in
      let clash : true ≡ false = sym mapped ∙ ap has_map (sym e) ∙ bare in absurd (cc)
  extended-Fits new r found mapped (fits_slice {vs} t found' mapped' fs) fit =
      let e : t ≡ r = cc in
      fits_slice r found mapped
        (add-FitElements (subst (λ u. FitElements u.dict_index vs) e fs) fit)
