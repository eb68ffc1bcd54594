-- ===== src/Paging/Create.antt =====
-- The tables that `get_target_pdpte`, `get_target_pde` and `get_target_pte` make.
use Prim.Native.Nat.{bit_or, bit_or-bitwise}
use mathlib.Core.Path.{fun_ext}
use methylenix.Base.{
  ℕ, zero, suc, ◌+◌, ◌*◌, ◌%◌, ◌^◌, ◌<◌, ◌≡◌, ◌≢◌, refl, sym, ap, ◌∙◌, true, false, Bool-cases,
  none, some, arith, ◌==◌, ==_ne, inl, inr,
}
use methylenix.Memory.Error.{PagingError, memory_cache_ran_out}
use methylenix.Paging.Entry.{Entry, set_present, masked}
use methylenix.Paging.Entry.Pml4e
use methylenix.Paging.Entry.Pdpte
use methylenix.Paging.Entry.Pde
use methylenix.Paging.State.{
  Memory, State, Result, ok, err, panic, M, update, init_entries, continue_with, PhysicalPages,
  page_size, page_shift, direct_map_start_address, physical_address_to_direct_map,
  direct_map_to_physical_address,
}
use methylenix.Paging.Walk.{ends}

-- The call does not panic; its result has the property, and so has its error.
abbrev pub Gives :
    {S A : Type 0} → (A → State S → Type 0) → (PagingError → Type 0) → Result S A → Type 0
Gives Q E (ok a s) = Q a s
Gives Q E (err e s) = E e
Gives Q E panic = ⊥

pub Gives->>= :
    {S A B : Type 0} {Q : A → State S → Type 0} (R : B → State S → Type 0)
    (E : PagingError → Type 0) (r : Result S A) (f : A → M S B)
    → Gives Q E r
    → ((a : A) (s : State S) → Q a s → Gives R E (f a s))
    → Gives R E (continue_with f r)
Gives->>= R E (ok a s) f h k = k a s h
Gives->>= R E (err e s) f h k = h
Gives->>= R E panic f h k = h

-- The error says that memory has run out, and the physical memory manager said so.
abbrev pub RanOut : {S : Type 0} → PhysicalPages S → PagingError → Type 0
RanOut {S = S} pages e =
    (e ≡ memory_cache_ran_out)
    × (pm : S) × (pm' : S) × (pages.alloc page_size page_shift pm ≡ some (none, pm'))

pub mapped_lem :
    (p : ℕ) → p < 2 ^ 45 → physical_address_to_direct_map p ≡ p + direct_map_start_address
unfolding physical_address_to_direct_map
mapped_lem p h = omega arith

pub back_lem :
    (p : ℕ) → p < 2 ^ 45 → direct_map_to_physical_address (physical_address_to_direct_map p) ≡ p
unfolding physical_address_to_direct_map direct_map_to_physical_address
back_lem p h = omega arith

-- The entry of a new table, in each of the three types that have one.
abbrev pub Points : ℕ → ℕ → Entry → Type 0
Points k p e = (e.address_set ≡ true) × (e.present ≡ true) × (ends k e ≡ false) × (e.address ≡ p)

masked_page : (p : ℕ) → p % 4096 ≡ 0 → p < 2 ^ 45 → masked 12 p ≡ p
masked_page p aligned small = omega arith

pub or_zero : (a : ℕ) → bit_or 0 a ≡ a
or_zero a = λ i. bit_or-bitwise 0 a i

pub Pml4e-Points :
    (p : ℕ) (e : Entry)
    → p % 4096 ≡ 0
    → p < 2 ^ 45
    → Points 3 p (set_present true ((Pml4e.set_address p (Pml4e.init e)).1))
unfolding Pml4e.set_address Pml4e.init Pml4e.set_address_set
Pml4e-Points p e aligned small =
    rw aligned (refl, refl, refl, or_zero (masked 12 p) ∙ masked_page p aligned small)

pub Pdpte-Points :
    (p : ℕ) (e : Entry)
    → p % 4096 ≡ 0
    → p < 2 ^ 45
    → Points 2 p (set_present true ((Pdpte.set_address p (Pdpte.init e)).1))
unfolding Pdpte.set_address Pdpte.init Pdpte.set_address_set Pdpte.is_huge
Pdpte-Points p e aligned small =
    rw aligned (refl, refl, refl, or_zero (masked 12 p) ∙ masked_page p aligned small)

pub Pde-Points :
    (p : ℕ) (e : Entry)
    → p % 4096 ≡ 0
    → p < 2 ^ 45
    → Points 1 p (set_present true ((Pde.set_address p (Pde.init e)).1))
unfolding Pde.set_address Pde.init Pde.set_address_set Pde.is_huge
Pde-Points p e aligned small =
    rw aligned (refl, refl, refl, or_zero (masked 12 p) ∙ masked_page p aligned small)

pub init_entries_other :
    (init : Entry → Entry) (n t : ℕ) (mem : Memory) (x : ℕ)
    → ((j : ℕ) → j < n → x ≢ t + 8 * j)
    → init_entries init n t mem x ≡ mem x
unfolding init_entries
init_entries_other init zero t mem x h = refl
init_entries_other init (suc n) t mem x h =
    rw (==_ne x (t + 8 * n) (h n (omega arith)))
      (init_entries_other init n t mem x (λ j lt. h j (omega arith)))

pub init_entries_lem :
    (init : Entry → Entry) (n t : ℕ) (mem : Memory) (j : ℕ)
    → j < n
    → (e : Entry) × (init_entries init n t mem (t + 8 * j) ≡ init e)
unfolding init_entries
init_entries_lem init zero t mem j lt = absurd (omega arith)
init_entries_lem init (suc n) t mem j lt = elim (Bool-cases (t + 8 * j == t + 8 * n)) [
  | inl same ↦ (init_entries init n t mem (t + 8 * n), rw same refl)
  | inr other ↦ let (e, is) = init_entries_lem init n t mem j (ground arith) in (e, rw other is)
]

pub update_self : (mem : Memory) (a : ℕ) (e : Entry) → update mem a e a ≡ e
update_self mem a e = ground arith

pub update_other : (mem : Memory) (a x : ℕ) (e : Entry) → x ≢ a → update mem a e x ≡ mem x
update_other mem a x e h = rw (==_ne x a h) refl

pub update_twice :
    (mem : Memory) (a : ℕ) (e e' : Entry) → update (update mem a e) a e' ≡ update mem a e'
update_twice mem a e e' = fun_ext λ x. ground arith

pub update_same : (mem : Memory) (a : ℕ) (e : Entry) → mem a ≡ e → update mem a e ≡ mem
update_same mem a e h = fun_ext λ x. elim (Bool-cases (x == a)) [
  | inl here ↦ rw here (sym h ∙ ap mem (sym (x_eq here)))
  | inr other ↦ rw other refl
]
  where
    x_eq : {x : ℕ} → (x == a) ≡ true → x ≡ a
    x_eq h = ground arith
