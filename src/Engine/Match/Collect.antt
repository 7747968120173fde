-- ===== src/Engine/Match/Collect.antt =====
-- The records that an event's attributes bring.
use mathlib.Core.List.{Memᴰ}
use mathlib.Core.List.Memᴰ
use rulestone.Prelude.{
  ◌≡◌, ◌↔◌, ◌⊎◌, inl, inr, refl, ap, sym, ◌∙◌, Bool, true, false, ◌||◌, none, some, Option-cases,
  Bool-cases, List, [], ◌∷◌, subst, ==_iff, arith,
}
use rulestone.Prelude.Int.{ℤ}
use rulestone.Immutable.Hash.{uint64}
use rulestone.Immutable.Set.{Hashset}
use rulestone.Immutable.Set.Laws.{Laws}
use rulestone.Condition.Operand.{Text}
use rulestone.Objectmap.TextMap.{lookup}
use rulestone.Objectmap.Address.{address_match_key}
use rulestone.Engine.Registry.{RecRef, record_element}
use rulestone.Engine.Registry.Keys.{Sets, registered, registered-lookup, same, AllTables}
use rulestone.Engine.Match.{put_records, collect}

same_refl : (k : RecRef) → same k k ≡ true
unfolding record_element
same_refl k = (==_iff (uint64 k.cat) (uint64 k.cat)).1 refl

abbrev in_list : List RecRef → RecRef → Bool
in_list [] k = false
in_list (p ∷ ps) k = same p k || in_list ps k

in_list-mem :
    (ps : List RecRef) (k : RecRef)
    → in_list ps k ≡ true
    → (j : RecRef) × Memᴰ j ps × (same j k ≡ true)
in_list-mem [] k e = cc
in_list-mem (p ∷ ps) k e = elim (Bool-cases (same p k)) [
  | inl q ↦ (p, Memᴰ.head refl, q)
  | inr q ↦ let (j, m, r) = in_list-mem ps k (ground (arith, e, q)) in (j, Memᴰ.tail m, r)
]

mem-in_list : (ps : List RecRef) (j k : RecRef) → Memᴰ j ps → same j k ≡ true → in_list ps k ≡ true
mem-in_list [] j k m e = absurd (Memᴰ.not-nil m)
mem-in_list (p ∷ ps) j k (Memᴰ.head q) e =
    let r : same p k ≡ true = ap (λ x. same x k) (sym q) ∙ e in rw r refl
mem-in_list (p ∷ ps) j k (Memᴰ.tail m) e = rw (mem-in_list ps j k m e) (ground arith)

bool_ext : (a b : Bool) → ((a ≡ true) ↔ (b ≡ true)) → a ≡ b
bool_ext a b h = ground (arith, h)

module _ {h : Hashset} (laws : Laws h RecRef record_element) where
  has-put_records :
      (ps : List RecRef) (t : h.Table RecRef) (k : RecRef)
      → laws.IsTable t
      → laws.IsTable (put_records h t ps)
        × (h.has RecRef (put_records h t ps) k ≡ (in_list ps k || h.has RecRef t k))
  unfolding put_records
  has-put_records [] t k is = (is, refl)
  has-put_records (p ∷ ps) t k is =
      let (is', e) = has-put_records ps (h.put RecRef t p) k (laws.put-IsTable t p is) in
      (is', e ∙ rw (laws.has-put t p k is) (ground arith))

  has-in_list :
      (t : h.Table RecRef) (k : RecRef)
      → laws.IsTable t
      → h.has RecRef t k ≡ in_list (h.each RecRef t) k
  has-in_list t k is = bool_ext _ _ (
    (λ e. let (j, m, q) = (laws.has_iff t k is).0 e in mem-in_list (h.each RecRef t) j k m q),
    (λ e. (laws.has_iff t k is).1 (in_list-mem (h.each RecRef t) k e)),
  )

  -- Some attribute of the list brings the record.
  abbrev brought : Sets h → List (List ℤ) → RecRef → Bool
  brought m [] k = false
  brought m (addr ∷ addrs) k = registered h m (address_match_key addr) k || brought m addrs k

  collect_missing :
      (m : Sets h) (addr : List ℤ) (addrs : List (List ℤ)) (t : h.Table RecRef)
      → lookup (address_match_key addr) m ≡ none
      → collect h m (addr ∷ addrs) t ≡ collect h m addrs t
  unfolding collect
  collect_missing m addr addrs t e = rw (e, collect)

  collect_found :
      (m : Sets h) (addr : List ℤ) (addrs : List (List ℤ)) (t records : h.Table RecRef)
      → lookup (address_match_key addr) m ≡ some records
      → collect h m (addr ∷ addrs) t ≡ collect h m addrs (put_records h t (h.each RecRef records))
  unfolding collect
  collect_found m addr addrs t records e = rw (e, collect)

  pub has-collect :
      (m : Sets h) (addrs : List (List ℤ)) (t : h.Table RecRef) (k : RecRef)
      → AllTables laws m
      → laws.IsTable t
      → laws.IsTable (collect h m addrs t)
        × (h.has RecRef (collect h m addrs t) k ≡ (brought m addrs k || h.has RecRef t k))
  unfolding collect
  has-collect m [] t k all is = (is, refl)
  has-collect m (addr ∷ addrs) t k all is =
      elim (Option-cases (lookup (address_match_key addr) m)) [
        | inl missing ↦
            let (is', e) = has-collect m addrs t k all is in
            rw (collect_missing m addr addrs t missing)
              (is', e ∙ rw (registered-lookup laws (address_match_key addr) k m none missing) refl)
        | inr (records, found) ↦
            let (put_is, put) = has-put_records (h.each RecRef records) t k is in
            let (is', e) =
              has-collect m addrs (put_records h t (h.each RecRef records)) k all put_is in
            rw (collect_found m addr addrs t records found) (
              is',
              e
                  ∙ rw
                      (
                        put,
                        registered-lookup laws (address_match_key addr) k m (some records) found,
                        has-in_list records k (all _ records found),
                      )
                      (ground arith),
            )
      ]

  brought-mem :
      (m : Sets h) (addrs : List (List ℤ)) (k : RecRef)
      → brought m addrs k ≡ true
      → (addr : List ℤ) × Memᴰ addr addrs × (registered h m (address_match_key addr) k ≡ true)
  brought-mem m [] k e = cc
  brought-mem m (addr ∷ addrs) k e = elim (Bool-cases (registered h m (address_match_key addr) k)) [
    | inl q ↦ (addr, Memᴰ.head refl, q)
    | inr q ↦ let (a, i, r) = brought-mem m addrs k (ground (arith, e, q)) in (a, Memᴰ.tail i, r)
  ]

  mem-brought :
      (m : Sets h) (addrs : List (List ℤ)) (addr : List ℤ) (k : RecRef)
      → Memᴰ addr addrs
      → registered h m (address_match_key addr) k ≡ true
      → brought m addrs k ≡ true
  mem-brought m [] addr k i e = absurd (Memᴰ.not-nil i)
  mem-brought m (a ∷ addrs) addr k (Memᴰ.head q) e =
      let r : registered h m (address_match_key a) k ≡ true =
        ap (λ x. registered h m (address_match_key x) k) (sym q) ∙ e in
      rw r refl
  mem-brought m (a ∷ addrs) addr k (Memᴰ.tail i) e =
      rw (mem-brought m addrs addr k i e) (ground arith)

  -- Where the registered sets are hash sets, a new table that takes the records of some attributes
  -- has exactly the records that are registered for the key of one of them.
  pub collect_iff :
      (m : Sets h) (addrs : List (List ℤ)) (k : RecRef)
      → AllTables laws m
      → (h.has RecRef (collect h m addrs (h.of RecRef record_element [])) k ≡ true)
        ↔ ((addr : List ℤ) × Memᴰ addr addrs × (registered h m (address_match_key addr) k ≡ true))
  collect_iff m addrs k all =
      let (is, e) = has-collect m addrs _ k all laws.of-IsTable in
      let empty = laws.has-of k in
      (
        (λ q. brought-mem m addrs k (ground (arith, q, e, empty))),
        (λ (addr, i, q). e ∙ rw (mem-brought m addrs addr k i q) refl),
      )

  -- The set of the key holds the record.
  abbrev pub Holds : Sets h → Text → RecRef → Type 0
  Holds m key k = (t : h.Table RecRef) × (lookup key m ≡ some t) × Memᴰ k (h.each RecRef t)

  -- The registered records of one category are the same record.
  abbrev pub IsUnique : Sets h → Type 0
  IsUnique m =
      (key other : Text) (j k : RecRef) → Holds m key j → Holds m other k → same j k ≡ true → j ≡ k

  pub Holds-registered :
      (m : Sets h) (key : Text) (k : RecRef)
      → AllTables laws m
      → Holds m key k
      → registered h m key k ≡ true
  Holds-registered m key k all (t, found, i) =
      registered-lookup laws key k m (some t) found
      ∙ (laws.has_iff t k (all key t found)).1 (k, i, same_refl k)

  each-put_records :
      (ps : List RecRef) (t : h.Table RecRef) (k : RecRef)
      → laws.IsTable t
      → Memᴰ k (h.each RecRef (put_records h t ps))
      → Memᴰ k (h.each RecRef t) ⊎ Memᴰ k ps
  unfolding put_records
  each-put_records [] t k is i = inl i
  each-put_records (p ∷ ps) t k is i =
      elim (each-put_records ps (h.put RecRef t p) k (laws.put-IsTable t p is) i) [
        | inl j ↦ elim (laws.each-put t p k is j) [
          | inl old ↦ inl old
          | inr new ↦ inr (Memᴰ.head new)
        ]
        | inr j ↦ inr (Memᴰ.tail j)
      ]

  abbrev Brings : Sets h → List (List ℤ) → RecRef → Type 0
  Brings m addrs k = (addr : List ℤ) × Memᴰ addr addrs × Holds m (address_match_key addr) k

  later :
      (m : Sets h) (addr : List ℤ) (addrs : List (List ℤ)) (k : RecRef)
      → Brings m addrs k
      → Brings m (addr ∷ addrs) k
  later m addr addrs k (a, i, holds) = (a, Memᴰ.tail i, holds)

  pub each-collect :
      (m : Sets h) (addrs : List (List ℤ)) (t : h.Table RecRef) (k : RecRef)
      → AllTables laws m
      → laws.IsTable t
      → Memᴰ k (h.each RecRef (collect h m addrs t))
      → Memᴰ k (h.each RecRef t) ⊎ Brings m addrs k
  unfolding collect
  each-collect m [] t k all is i = inl i
  each-collect m (addr ∷ addrs) t k all is i =
      elim (Option-cases (lookup (address_match_key addr) m)) [
        | inl missing ↦
            elim (each-collect m addrs t k all is
              (subst (λ c. Memᴰ k (h.each RecRef c)) (collect_missing m addr addrs t missing) i)) [
                | inl j ↦ inl j
                | inr brings ↦ inr (later m addr addrs k brings)
              ]
        | inr (records, found) ↦
            let ps = h.each RecRef records in
            elim (each-collect m addrs (put_records h t ps) k all (has-put_records ps t k is).0 (
              subst (λ c. Memᴰ k (h.each RecRef c)) (collect_found m addr addrs t records found)
                i)) [
                  | inl j ↦ elim (each-put_records ps t k is j) [
                    | inl old ↦ inl old
                    | inr new ↦ inr (addr, Memᴰ.head refl, (records, found, new))
                  ]
                  | inr brings ↦ inr (later m addr addrs k brings)
                ]
      ]

  -- The records that are collected are those that the sets of the attributes hold, up to records of
  -- the same category.
  pub collect-Brings :
      (m : Sets h) (addrs : List (List ℤ)) (k : RecRef)
      → AllTables laws m
      → Brings m addrs k
      → (j : RecRef) × Memᴰ j (h.each RecRef (collect h m addrs (h.of RecRef record_element [])))
        × (same j k ≡ true)
  collect-Brings m addrs k all (addr, i, holds) =
      let (is, e) = has-collect m addrs _ k all laws.of-IsTable in
      (laws.has_iff _ k is).0
        ((collect_iff m addrs k all).1 (addr, i, Holds-registered m _ k all holds))
