-- ===== src/Cateng/SliceMap/Laws.antt =====
-- What a SliceMap holds after a write, in each of the three cases of Set.
use rulestone.Prelude.{
  ℕ, zero, suc, ◌+◌, ◌-◌, ◌≤◌, ◌<◌, ◌≡◌, refl, ap, sym, ◌∙◌, inl, inr, List, [], ◌∷◌, ◌++◌, arith,
  tests, ltb, ◌==◌, length, get_or, set, replicate, take, length-set, length-append,
  length-replicate, get_or-set_if, get_or-replicate, Bool-cases, if◌then◌else◌,
}
use rulestone.Prelude.Int.{pos}
use rulestone.Prelude.Fault.{done}
use rulestone.Cateng.SliceMap.{SliceMap, set_at, grow, entry, IsValid}

module _ {T : Type 0} where
  length-take : (n : ℕ) (xs : List T) → n ≤ length xs → length (take n xs) ≡ n
  length-take zero xs h = refl
  length-take (suc n) [] h = absurd (omega arith)
  length-take (suc n) (x ∷ xs) h = ap suc (length-take n xs (omega arith))

  get_or-padded :
      (n k : ℕ) (xs : List T) (i : ℕ) (d : T)
      → n ≤ length xs
      → get_or (take n xs ++ replicate k d) i d ≡ (if ltb i n then get_or xs i d else d)
  get_or-padded zero k xs i d h = ground (arith, get_or-replicate k i d)
  get_or-padded (suc n) k [] i d h = absurd (omega arith)
  get_or-padded (suc n) k (x ∷ xs) zero d h = ground arith
  get_or-padded (suc n) k (x ∷ xs) (suc i) d h =
      ground (arith, get_or-padded n k xs i d (omega arith))

  get_or-beyond : (xs : List T) (i : ℕ) (d : T) → length xs ≤ i → get_or xs i d ≡ d
  get_or-beyond [] i d h = refl
  get_or-beyond (x ∷ xs) zero d h = absurd (omega arith)
  get_or-beyond (x ∷ xs) (suc i) d h = get_or-beyond xs i d (omega arith)

module _ {T : Type 0} (zero_value : T) where
  -- An entry of the map is what the array holds there: beyond the length it holds zero values.
  entry_lem :
      (s : SliceMap T) (i : ℕ)
      → IsValid zero_value s
      → entry zero_value s i ≡ get_or s.backing i zero_value
  unfolding entry
  entry_lem s i valid = elim (Bool-cases (ltb i s.len)) [
    | inl inside ↦ rw inside refl
    | inr outside ↦ rw outside (sym (valid.clear i (ground arith)))
  ]

  Written : SliceMap T → ℕ → T → SliceMap T → Type 0
  Written s index value s' =
      (i : ℕ)
      → get_or s'.backing i zero_value
        ≡ (if index == i then value else get_or s.backing i zero_value)

  Written-IsValid :
      (s s' : SliceMap T) (index : ℕ) (value : T)
      → IsValid zero_value s
      → s'.len ≤ length s'.backing
      → s.len ≤ s'.len
      → index < s'.len
      → Written s index value s'
      → IsValid zero_value s'
  unfolding Written
  Written-IsValid s s' index value valid fits longer inside same = record {
    fits = fits;
    clear = λ i h. ground (arith, same i, valid.clear i (omega arith));
  }

  entry-Written :
      (s s' : SliceMap T) (index i : ℕ) (value : T)
      → IsValid zero_value s
      → IsValid zero_value s'
      → Written s index value s'
      → entry zero_value s' i ≡ (if index == i then value else entry zero_value s i)
  unfolding Written
  entry-Written s s' index i value valid valid' same =
      rw (entry_lem s' i valid', entry_lem s i valid) (same i)

  grow-Written :
      (s : SliceMap T) (index : ℕ) (value : T)
      → IsValid zero_value s
      → s.len ≤ index
      → Written s index value (grow zero_value s index value)
        × (length (grow zero_value s index value).backing ≡ index + 1)
  unfolding Written grow
  grow-Written s index value valid beyond =
      let size : length (take s.len s.backing ++ replicate (index + 1 - s.len) zero_value)
          ≡ index + 1 =
        omega (
          arith,
          length-append (take s.len s.backing) (replicate (index + 1 - s.len) zero_value),
          length-take s.len s.backing valid.fits,
          length-replicate (index + 1 - s.len) zero_value,
        ) in
      (
        λ i. ground (
          arith,
          get_or-set_if (take s.len s.backing ++ replicate (index + 1 - s.len) zero_value) index i
              value zero_value (omega (arith, size)),
          get_or-padded s.len (index + 1 - s.len) s.backing i zero_value valid.fits,
          valid.clear i,
        ),
        length-set (take s.len s.backing ++ replicate (index + 1 - s.len) zero_value) index value
            ∙ size,
      )

  abbrev Wrote : SliceMap T → ℕ → ℕ → T → SliceMap T → Type 0
  Wrote s index i value s' =
      (set_at zero_value s (pos index) value ≡ done s')
      × IsValid zero_value s'
      × (entry zero_value s' i ≡ (if index == i then value else entry zero_value s i))

  wrote :
      (s s' : SliceMap T) (index i : ℕ) (value : T)
      → IsValid zero_value s
      → set_at zero_value s (pos index) value ≡ done s'
      → s'.len ≤ length s'.backing
      → s.len ≤ s'.len
      → index < s'.len
      → Written s index value s'
      → Wrote s index i value s'
  wrote s s' index i value valid p fits longer inside same =
      let valid' = Written-IsValid s s' index value valid fits longer inside same in
      (p, valid', entry-Written s s' index i value valid valid' same)

  -- A write at any position that is not negative succeeds and keeps a map valid; the map then holds
  -- the value at that position and what it held before elsewhere.
  pub entry-set_at :
      (s : SliceMap T) (index i : ℕ) (value : T)
      → IsValid zero_value s
      → (s' : SliceMap T) × (set_at zero_value s (pos index) value ≡ done s')
        × IsValid zero_value s'
        × (entry zero_value s' i ≡ (if index == i then value else entry zero_value s i))
  unfolding set_at Written
  entry-set_at s index i value valid = elim (Bool-cases (ltb index s.len)) [
    | inl inside ↦
        let s' = record s { backing = set s.backing index value } in
        let (p, v, e) =
          wrote s s' index i value valid (rw inside refl)
            (omega (arith, length-set s.backing index value, valid.fits)) (omega arith)
            (omega tests)
            (λ j. get_or-set_if s.backing index j value zero_value (omega (tests, valid.fits))) in
        (s', p, v, e)
    | inr outside ↦ elim (Bool-cases (ltb index (length s.backing))) [
      | inl within ↦
          let s' : SliceMap T = record { backing = set s.backing index value; len = index + 1 } in
          let (p, v, e) =
            wrote s s' index i value valid (rw (outside, within) refl)
              (omega (tests, length-set s.backing index value)) (ground arith) (omega arith)
              (λ j. get_or-set_if s.backing index j value zero_value (omega tests)) in
          (s', p, v, e)
      | inr beyond ↦
          let (same, size) = grow-Written s index value valid (ground arith) in
          let (p, v, e) =
            wrote s (grow zero_value s index value) index i value valid (rw (outside, beyond) refl)
              (omega (arith, size)) (ground arith) (omega arith) same in
          (grow zero_value s index value, p, v, e)
    ]
  ]
