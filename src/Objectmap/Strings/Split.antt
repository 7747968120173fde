-- ===== src/Objectmap/Strings/Split.antt =====
-- Splitting what was joined.
use rulestone.Prelude.{
  ℕ, ◌≡◌, refl, ap, ◌∙◌, Bool, true, false, List, [], ◌∷◌, ◌++◌, ◌==◌, ==_iff, All, if◌then◌else◌,
}
use rulestone.Condition.Operand.{Text}
use rulestone.Objectmap.Strings.{cut, split, split_rest, join}

-- A text without the separator.
abbrev pub IsFree : ℕ → Text → Type 0
IsFree sep s = All (λ c. (c == sep) ≡ false) s

pub split-IsFree : (s : Text) (sep : ℕ) → IsFree sep s → split s sep ≡ s ∷ []
unfolding split
split-IsFree [] sep h = refl
split-IsFree (c ∷ cs) sep h = rw h.0 (rw (split-IsFree cs sep h.1))

pub split_rest-IsFree : (s : Text) (sep : ℕ) → IsFree sep s → split_rest s sep ≡ (s, [])
unfolding split_rest
split_rest-IsFree [] sep h = refl
split_rest-IsFree (c ∷ cs) sep h = rw (h.0, split_rest-IsFree cs sep h.1) refl

no_second :
    (b : Bool) (c : ℕ) (cs : Text) (rest : Text × List Text)
    → (if◌then◌else◌ {A = Text × List Text} b ([], cs ∷ []) (c ∷ rest.0, rest.1)).1 ≡ []
    → (b ≡ false) × (rest.1 ≡ [])
no_second true c cs rest h = cc
no_second false c cs rest h = (refl, h)

-- A text without a second piece does not have the separator.
pub IsFree-of_split : (s : Text) (sep : ℕ) → (split_rest s sep).1 ≡ [] → IsFree sep s
unfolding split_rest
IsFree-of_split [] sep h = tt
IsFree-of_split (c ∷ cs) sep h =
    let (differs, rest) = no_second (c == sep) c cs (split_rest cs sep) h in
    (differs, IsFree-of_split cs sep rest)

pub split-append :
    (s rest : Text) (sep : ℕ) → IsFree sep s → split (s ++ sep ∷ rest) sep ≡ s ∷ split rest sep
unfolding split
split-append [] rest sep h = rw ((==_iff sep sep).1 refl)
split-append (c ∷ cs) rest sep h = rw h.0 (rw (split-append cs rest sep h.1))

pub split-join :
    (piece : Text) (pieces : List Text) (sep : ℕ)
    → All (IsFree sep) (piece ∷ pieces)
    → split (join (piece ∷ pieces) sep) sep ≡ piece ∷ pieces
unfolding join
split-join piece [] sep h = split-IsFree piece sep h.0
split-join piece (next ∷ pieces) sep h =
    split-append piece (join (next ∷ pieces) sep) sep h.0
    ∙ ap (λ ps. piece ∷ ps) (split-join next pieces sep h.1)

-- The pieces do not have the separator, and no byte that the text does not have.
All-cut :
    (x c : ℕ) (b : Bool) (pieces : List Text)
    → (b ≡ false → (c == x) ≡ false)
    → All (IsFree x) pieces
    → All (IsFree x) (cut b c pieces)
unfolding cut
All-cut x c true pieces h all = (tt, all)
All-cut x c false [] h all = ((h refl, tt), tt)
All-cut x c false (piece ∷ pieces) h all = ((h refl, all.0), all.1)

pub split-IsFree_sep : (s : Text) (sep : ℕ) → All (IsFree sep) (split s sep)
unfolding split
split-IsFree_sep [] sep = (tt, tt)
split-IsFree_sep (c ∷ cs) sep =
    All-cut sep c (c == sep) (split cs sep) (λ e. e) (split-IsFree_sep cs sep)

pub split-IsFree_of : (s : Text) (x sep : ℕ) → IsFree x s → All (IsFree x) (split s sep)
unfolding split
split-IsFree_of [] x sep h = (tt, tt)
split-IsFree_of (c ∷ cs) x sep h =
    All-cut x c (c == sep) (split cs sep) (λ _. h.0) (split-IsFree_of cs x sep h.1)

pub append-IsFree : (x : ℕ) (s t : Text) → IsFree x s → IsFree x t → IsFree x (s ++ t)
append-IsFree x [] t hs ht = ht
append-IsFree x (c ∷ cs) t hs ht = (hs.0, append-IsFree x cs t hs.1 ht)

pub join-IsFree :
    (x sep : ℕ) (pieces : List Text)
    → (sep == x) ≡ false
    → All (IsFree x) pieces
    → IsFree x (join pieces sep)
unfolding join
join-IsFree x sep [] ne h = tt
join-IsFree x sep (piece ∷ []) ne h = h.0
join-IsFree x sep (piece ∷ next ∷ pieces) ne h =
    append-IsFree x piece (sep ∷ join (next ∷ pieces) sep) h.0
      (ne, join-IsFree x sep (next ∷ pieces) ne h.1)

pub snoc-All :
    (x : ℕ) (pieces : List Text) (piece : Text)
    → All (IsFree x) pieces
    → IsFree x piece
    → All (IsFree x) (pieces ++ piece ∷ [])
snoc-All x [] piece h free = (free, tt)
snoc-All x (p ∷ ps) piece h free = (h.0, snoc-All x ps piece h.1 free)
