-- ===== src/Memory/Physical/Areas.antt =====
-- The free areas as a set of addresses.
use methylenix.Base.{
  ℕ, suc, ◌+◌, ◌-◌, ◌≤◌, ◌<◌, ◌≡◌, refl, ap, Bool, true, false, ◌&&◌, ◌||◌, List, [], ◌∷◌, ◌++◌,
  leb, ltb, if◌then◌else◌, arith, ◌⊎◌, inl, inr, Bool-cases, ==_ne, ==_iff,
}
use methylenix.Memory.Physical.{MemoryEntry, replace}

-- The areas follow one another from `lo` on, and end before `hi`.
abbrev pub Between : ℕ → List MemoryEntry → ℕ → Type 0
Between lo [] hi = lo ≤ hi
Between lo (e ∷ es) hi = (lo ≤ e.start) × (e.start ≤ e.end) × Between (suc e.end) es hi

abbrev pub inside : ℕ → ℕ → ℕ → Bool
inside lo hi x = leb lo x && leb x hi

-- Whether the byte at `x` is free.
abbrev pub covers : List MemoryEntry → ℕ → Bool
covers [] x = false
covers (e ∷ es) x = inside e.start e.end x || covers es x

abbrev pub total : List MemoryEntry → ℕ
total [] = 0
total (e ∷ es) = (e.end - e.start + 1) + total es

abbrev pub Member : MemoryEntry → List MemoryEntry → Type 0
Member e [] = ⊥
Member e (f ∷ fs) = (f ≡ e) ⊎ Member e fs

pub Between-le : (lo hi : ℕ) (es : List MemoryEntry) → Between lo es hi → lo ≤ hi
Between-le lo hi [] h = h
Between-le lo hi (e ∷ es) h = omega (arith, Between-le (suc e.end) hi es h.2)

-- No byte before the first area is covered, and none from the bound on.
pub covers-below :
    (lo hi x : ℕ) (es : List MemoryEntry) → Between lo es hi → x < lo → covers es x ≡ false
covers-below lo hi x [] h lt = refl
covers-below lo hi x (e ∷ es) h lt =
    let rest = covers-below (suc e.end) hi x es h.2 (omega arith) in ground arith

pub covers-above :
    (lo hi x : ℕ) (es : List MemoryEntry) → Between lo es hi → hi ≤ x → covers es x ≡ false
covers-above lo hi x [] h le = refl
covers-above lo hi x (e ∷ es) h le =
    let rest = covers-above (suc e.end) hi x es h.2 le in
    let fit = Between-le (suc e.end) hi es h.2 in ground arith

pub covers-append :
    (x : ℕ) (es fs : List MemoryEntry) → covers (es ++ fs) x ≡ (covers es x || covers fs x)
covers-append x [] fs = refl
covers-append x (e ∷ es) fs = let ih = covers-append x es fs in ground arith

pub total-append : (es fs : List MemoryEntry) → total (es ++ fs) ≡ total es + total fs
total-append [] fs = omega arith
total-append (e ∷ es) fs = omega (arith, total-append es fs)

pub Between-append :
    (lo mid hi : ℕ) (es fs : List MemoryEntry)
    → Between lo es mid
    → Between mid fs hi
    → Between lo (es ++ fs) hi
Between-append lo mid hi [] [] h k = omega arith
Between-append lo mid hi [] (f ∷ fs) h k = (omega arith, k.1, k.2)
Between-append lo mid hi (e ∷ es) fs h k = (h.0, h.1, Between-append (suc e.end) mid hi es fs h.2 k)

Between-lower :
    (lo lo' hi : ℕ) (es : List MemoryEntry) → lo' ≤ lo → Between lo es hi → Between lo' es hi
Between-lower lo lo' hi [] le h = omega arith
Between-lower lo lo' hi (e ∷ es) le h = (omega arith, h.1, h.2)

pub covers-Member :
    (e : MemoryEntry) (es : List MemoryEntry) (x : ℕ)
    → Member e es
    → inside e.start e.end x ≡ true
    → covers es x ≡ true
covers-Member e [] x m h = absurd m
covers-Member e (f ∷ fs) x (inl same) h = rw (same, h) refl
covers-Member e (f ∷ fs) x (inr there) h = let ih = covers-Member e fs x there h in ground arith

pub total-le : (lo hi : ℕ) (es : List MemoryEntry) → Between lo es hi → total es + lo ≤ hi
total-le lo hi [] h = omega arith
total-le lo hi (e ∷ es) h = omega (arith, total-le (suc e.end) hi es h.2)

-- What a member says of the areas around it.
pub Member-Between :
    (lo hi : ℕ) (e : MemoryEntry) (es : List MemoryEntry)
    → Between lo es hi
    → Member e es
    → (lo ≤ e.start) × (e.start ≤ e.end) × (e.end < hi)
Member-Between lo hi e [] h m = absurd m
Member-Between lo hi e (f ∷ fs) h (inl same) =
    let fit = Between-le (suc f.end) hi fs h.2 in ground arith
Member-Between lo hi e (f ∷ fs) h (inr there) =
    omega (arith, Member-Between (suc f.end) hi e fs h.2 there)

pub replace_here :
    (e f : MemoryEntry) (ps fs : List MemoryEntry) → f ≡ e → replace e.start ps (f ∷ fs) ≡ ps ++ fs
unfolding replace
replace_here e f ps fs same =
    rw ((==_iff f.start e.start).1 (ap (λ (g : MemoryEntry). g.start) same)) refl

pub replace_there :
    (lo hi : ℕ) (e f : MemoryEntry) (ps fs : List MemoryEntry)
    → Between lo (f ∷ fs) hi
    → Member e fs
    → replace e.start ps (f ∷ fs) ≡ f ∷ replace e.start ps fs
unfolding replace
replace_there lo hi e f ps fs h m =
    let apart = Member-Between (suc f.end) hi e fs h.2 m in
    rw (==_ne f.start e.start (omega arith)) refl

-- Putting areas `ps` that stand in `e` into its place.
module _ (e : MemoryEntry) (ps : List MemoryEntry) (within : Between e.start ps (suc e.end)) where
  pub Between-replace :
      (lo hi : ℕ) (es : List MemoryEntry)
      → Between lo es hi
      → Member e es
      → Between lo (replace e.start ps es) hi
  Between-replace lo hi [] h m = absurd m
  Between-replace lo hi (f ∷ fs) h (inl same) =
      let first = ap (λ (g : MemoryEntry). g.start) same in
      rw (replace_here e f ps fs same) (
        Between-append lo (suc e.end) hi ps fs
          (Between-lower e.start lo (suc e.end) ps (omega arith) within) (rw same at h.2))
  Between-replace lo hi (f ∷ fs) h (inr there) =
      rw (replace_there lo hi e f ps fs h there)
        (h.0, h.1, Between-replace (suc f.end) hi fs h.2 there)

  pub covers-replace :
      (lo hi x : ℕ) (es : List MemoryEntry)
      → Between lo es hi
      → Member e es
      → covers (replace e.start ps es) x
        ≡ (if inside e.start e.end x then covers ps x else covers es x)
  covers-replace lo hi x [] h m = absurd m
  covers-replace lo hi x (f ∷ fs) h (inl same) =
      let h' : Between (suc e.end) fs hi = rw same at h.2 in
      rw (replace_here e f ps fs same, covers-append x ps fs, same)
        (elim (Bool-cases (inside e.start e.end x)) [
          | inl in_e ↦ let out = covers-below (suc e.end) hi x fs h' (ground arith) in ground arith
          | inr out_e ↦ let out = outside x out_e in ground arith
        ])
    where
      outside : (x : ℕ) → inside e.start e.end x ≡ false → covers ps x ≡ false
      outside x out = elim (Bool-cases (ltb x e.start)) [
        | inl lt ↦ covers-below e.start (suc e.end) x ps within (ground arith)
        | inr ge ↦ covers-above e.start (suc e.end) x ps within (ground arith)
      ]
  covers-replace lo hi x (f ∷ fs) h (inr there) =
      let ih = covers-replace (suc f.end) hi x fs h.2 there in
      let apart = Member-Between (suc f.end) hi e fs h.2 there in
      rw (replace_there lo hi e f ps fs h there, ih) (ground arith)

  pub total-replace :
      (lo hi : ℕ) (es : List MemoryEntry)
      → Between lo es hi
      → Member e es
      → total (replace e.start ps es) + (e.end - e.start + 1) ≡ total es + total ps
  total-replace lo hi [] h m = absurd m
  total-replace lo hi (f ∷ fs) h (inl same) =
      rw (replace_here e f ps fs same, total-append ps fs, same) (omega arith)
  total-replace lo hi (f ∷ fs) h (inr there) =
      rw (replace_there lo hi e f ps fs h there)
        (omega (arith, total-replace (suc f.end) hi fs h.2 there))
