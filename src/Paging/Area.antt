-- ===== src/Paging/Area.antt =====
-- `associate_area`, where the area is too small for large pages.
use native.Mathlib.Decide.{dec_lt}
use mathlib.Core.Path.{subst}
use methylenix.Base.{
  ℕ, zero, suc, ◌+◌, ◌-◌, ◌*◌, ◌/◌, ◌%◌, ◌^◌, ◌<◌, ◌≤◌, ◌≡◌, ◌≢◌, refl, sym, ap, ◌∙◌, ◌⊎◌, inl, inr,
  Bool, true, false, ◌&&◌, some, arith, ◌==◌, leb, add_usize, sub_usize,
}
use methylenix.Paging.State.{State, ok, PhysicalPages, PhysicalPagesLaws, continue_with}
use methylenix.Paging.Manager.{
  PageManager, is_not_canonical, associate_address, associate_some, associate_loop, associate_area,
  fits_pdpte, fits_pde,
}
use methylenix.Paging.Walk.{walk, target, translate}
use methylenix.Paging.Tree.{Labels, IsTree}
use methylenix.Paging.Create.{Gives, Gives->>=, RanOut}
use methylenix.Paging.Reach.{NotLarge}
use methylenix.Paging.Associate.{page_of, mapping, Associated, associate_address-Associated}

-- The first `n` pages from `va` on are mapped to those from `pa` on, and the entries of the others are found as
-- before.
pub record AreaMapped {S : Type 0} (InUse : S → ℕ → Type 0) (pml4 pa va permission n : ℕ)
    (s s' : State S) : Type 0 where
  pub labels : Labels
  pub tree : IsTree InUse pml4 labels s'
  pub inside :
      (va' : ℕ)
      → va ≤ va'
      → va' < va + n * 4096
      → translate s'.memory pml4 va'
        ≡ some (pa + (va' - va), mapping (pa + (va' - va) / 4096 * 4096) permission)
  pub outside :
      (va' : ℕ)
      → va' < 2 ^ 48
      → (va' < va) ⊎ (va + n * 4096 ≤ va')
      → walk 3 s'.memory pml4 va' ≡ walk 3 s.memory pml4 va'

and_false : (a b : Bool) {c : Bool} → c ≡ false → (a && b && c) ≡ false
and_false a b h = ground arith

and_false_inside : (a b c d : Bool) {e : Bool} → e ≡ false → (a && b && c && e && d) ≡ false
and_false_inside a b c d h = ground arith

module _ (va j va' : ℕ) (aligned : va % 4096 ≡ 0) (low : va' < 2 ^ 48)
    (fits : va + j * 4096 < 2 ^ 47) where
  page_before : va' < va + j * 4096 → page_of va' ≢ page_of (va + j * 4096)
  page_before h same = omega arith

  page_behind : va + suc j * 4096 ≤ va' → page_of va' ≢ page_of (va + j * 4096)
  page_behind h same = omega arith

  page_beside : (va' < va) ⊎ (va + suc j * 4096 ≤ va') → page_of va' ≢ page_of (va + j * 4096)
  page_beside (inl before) = page_before (omega arith)
  page_beside (inr behind) = page_behind behind

  beside_fewer : (va' < va) ⊎ (va + suc j * 4096 ≤ va') → (va' < va) ⊎ (va + j * 4096 ≤ va')
  beside_fewer (inl before) = inl before
  beside_fewer (inr behind) = inr (omega arith)

  page_here :
      va + j * 4096 ≤ va'
      → va' < va + suc j * 4096
      → (page_of va' ≡ page_of (va + j * 4096))
        × (j * 4096 + va' % 2 ^ 12 ≡ va' - va)
        × ((va' - va) / 4096 * 4096 ≡ j * 4096)
  page_here from to = (omega arith, omega arith, omega arith)

module _ {S : Type 0} (pages : PhysicalPages S) (laws : PhysicalPagesLaws pages) (m : PageManager)
    (pa va permission n : ℕ) (aligned_pa : pa % 4096 ≡ 0) (aligned : va % 4096 ≡ 0)
    (small : n < 2 ^ 9) (pa_end : pa + n * 4096 < 2 ^ 52) (va_end : va + n * 4096 < 2 ^ 47) where
  page_fits_none :
      (pa va left : ℕ)
      → left < 2 ^ 21
      → (s : State S)
      → associate_some pages m pa va left permission s
        ≡ continue_with (λ _. ok 4096) (associate_address pages m pa va permission s)
  unfolding associate_some
  page_fits_none pa va left small s =
      let gib : leb 0x40000000 left ≡ false = ground arith in
      let mib : leb 0x200000 left ≡ false = ground arith in
      let no_gib : fits_pdpte pages m pa va left ≡ false =
        and_false_inside (va / 2 ^ 21 % 512 == 0) (va / 2 ^ 12 % 512 == 0) (pa % 2 ^ 30 == 0)
          m.is_1gb_paging_supported gib in
      let no_mib : fits_pde pages m pa va left ≡ false =
        and_false (va / 2 ^ 12 % 512 == 0) (pa % 2 ^ 21 == 0) mib in
      rw (no_gib, no_mib) refl

  is_canonical : (va' : ℕ) → va' < 2 ^ 47 → is_not_canonical va' ≡ false
  is_canonical va' h = ground arith

  -- One more page.
  next :
      (j : ℕ) (s s1 s2 : State S)
      → j ≤ n
      → AreaMapped laws.InUse m.pml4 pa va permission j s s1
      → Associated laws.InUse m.pml4 (pa + j * 4096) (va + j * 4096) permission s1 s2
      → AreaMapped laws.InUse m.pml4 pa va permission (suc j) s s2
  unfolding translate
  next j s s1 s2 le area page = record {
    labels = page.labels;
    tree = page.tree;
    inside = λ va' from to. elim (dec_lt va' (va + j * 4096)) [
      | yes before ↦
          ap (target va')
            (page.elsewhere va' (page_before va j va' aligned (omega arith) (omega arith) before))
          ∙ area.inside va' from before
      | no behind ↦
          let (same, offset, base) =
            page_here va j va' aligned (omega arith) (omega arith) (omega arith) to in
          let offset' : pa + j * 4096 + va' % 2 ^ 12 ≡ pa + (va' - va) = omega arith in
          page.here va' same
          ∙ ap (λ p. some (p, mapping (pa + j * 4096) permission)) offset'
          ∙ ap (λ b. some (pa + (va' - va), mapping (pa + b) permission)) (sym base)
    ];
    outside = λ va' low beside.
        page.elsewhere va' (page_beside va j va' aligned low (omega arith) beside)
        ∙ area.outside va' low (beside_fewer va j va' aligned low (omega arith) beside);
  }

  module _ (s : State S)
      (not_large : (va' : ℕ) → va ≤ va' → va' ≤ va + n * 4096 → NotLarge s.memory m.pml4 va') where
    Mapped : ℕ → State S → Type 0
    Mapped j s' = AreaMapped laws.InUse m.pml4 pa va permission j s s'

    one_page :
        (j : ℕ) (s1 : State S)
        → j ≤ n
        → Mapped j s1
        → Gives
            (λ r s2. (r ≡ 4096) × Mapped (suc j) s2)
            (RanOut pages)
            (associate_some pages m
              (add_usize pa (j * 4096))
              (add_usize va (j * 4096))
              (sub_usize (n * 4096) (j * 4096))
              permission
              s1)
    unfolding Mapped
    one_page j s1 le area =
        let pa_same : add_usize pa (j * 4096) ≡ pa + j * 4096 = omega arith in
        let va_same : add_usize va (j * 4096) ≡ va + j * 4096 = omega arith in
        let left : sub_usize (n * 4096) (j * 4096) < 2 ^ 21 = omega arith in
        rw
          (
            pa_same,
            va_same,
            page_fits_none (pa + j * 4096) (va + j * 4096) (sub_usize (n * 4096) (j * 4096)) left
                s1,
          )
          (Gives->>=
            {Q = λ _. Associated laws.InUse m.pml4 (pa + j * 4096) (va + j * 4096) permission s1} _
            (RanOut pages) _ _
            (associate_address-Associated pages laws m (pa + j * 4096) (va + j * 4096) permission s1
              area.tree
              (λ k e found.
                not_large (va + j * 4096) (omega arith) (omega arith) k e
                  (sym (area.outside (va + j * 4096) (omega arith) (inr (omega arith))) ∙ found))
              (omega arith) (omega arith) (omega arith)
              (is_canonical (va + j * 4096) (omega arith)))
            (λ u s2 page. (refl, next j s s1 s2 le area page)))

    loop :
        (fuel j : ℕ) (s1 : State S)
        → j ≤ suc n
        → suc n < fuel + j
        → Mapped j s1
        → Gives
            (λ r s2. (r ≡ some tt) × Mapped (suc n) s2)
            (RanOut pages)
            (associate_loop pages m fuel (j * 4096) (n * 4096) pa va permission s1)
    unfolding associate_loop
    loop zero j s1 le enough area = absurd (omega arith)
    loop (suc fuel) j s1 le enough area = elim (dec_lt n j) [
      | yes done ↦
          let ended : leb (j * 4096) (n * 4096) ≡ false = ground arith in
          let all : j ≡ suc n = omega arith in rw ended (refl, subst (λ x. Mapped x s1) all area)
      | no more ↦
          let goes_on : leb (j * 4096) (n * 4096) ≡ true = ground arith in
          rw goes_on (
            Gives->>= {Q = λ r s2. (r ≡ 4096) × Mapped (suc j) s2} _ (RanOut pages) _ _
              (one_page j s1 (omega arith) area)
              (λ r s2 mapped.
                let (is, area') = mapped in
                let processed : add_usize (j * 4096) r ≡ suc j * 4096 = omega arith in
                rw processed (loop fuel (suc j) s2 (omega arith) (omega arith) area')))
    ]

    -- For an area of `n` pages, not one and fewer than a large page has, aligned, in the lower half of the
    -- addresses and not in large pages, `associate_area` does not panic, and fails only where the physical
    -- memory manager has no page left for a table; `n + 2` rounds are enough. Otherwise it maps `n + 1` pages,
    -- one more than was asked for, one after the other, with the permission, and no other.
    pub associate_area-AreaMapped :
        {label : Labels} (fuel : ℕ)
        → IsTree laws.InUse m.pml4 label s
        → n ≢ 1
        → suc n < fuel
        → Gives
            (λ r s'. (r ≡ some tt) × AreaMapped laws.InUse m.pml4 pa va permission (suc n) s s')
            (RanOut pages)
            (associate_area pages m fuel pa va (n * 4096) permission s)
    unfolding associate_area Mapped
    associate_area-AreaMapped {label = label} fuel tree several enough =
        let whole : n * 4096 % 4096 ≡ 0 = omega arith in
        let not_page : (n * 4096 == 4096) ≡ false = ground arith in
        rw (aligned_pa, aligned, whole, not_page)
          (loop fuel 0 s (omega arith) (omega arith) record {
            labels = label;
            tree = tree;
            inside = λ va' from to. absurd (omega arith);
            outside = λ va' low beside. refl;
          })
