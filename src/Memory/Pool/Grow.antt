-- ===== src/Memory/Pool/Grow.antt =====
-- What `add_pool` puts into a pool allocator.
use methylenix.Base.{
  ℕ, zero, suc, ◌+◌, ◌-◌, ◌*◌, ◌/◌, ◌%◌, ◌<◌, ◌≤◌, ◌≡◌, List, [], ◌∷◌, arith, Returns, Returns->>=,
  Returns-mono, ◌⊎◌, inl, ◌∙◌, sub_usize, ◌==◌, if◌then◌else◌, usize_mod, length, add_usize,
}
use native.Mathlib.Nat.{div-add-mod'}
use methylenix.Memory.Pool.{Ptr, ObjectType, PoolAllocator, Store, free_ptr, add_objects, add_pool}
use methylenix.Memory.Pool.Stack.{Out, Holds, free_ptr-Freed}

-- The `n` objects of `size` bytes from `p` on, the last one first, before `xs`.
abbrev pub objects : ℕ → ℕ → Ptr → List Ptr → List Ptr
objects zero size p xs = xs
objects (suc n) size p xs = objects n size (p + size) (p ∷ xs)

-- No object of `xs` starts in the area from `p` up to `q`.
abbrev pub Away : Ptr → Ptr → List Ptr → Type 0
Away p q [] = Unit
Away p q (x ∷ xs) = ((x < p) ⊎ (q ≤ x)) × Away p q xs

Away-Out : (p q : Ptr) (xs : List Ptr) → p < q → Away p q xs → Out p xs
Away-Out p q [] le h = tt
Away-Out p q (x ∷ xs) le h = (omega arith, Away-Out p q xs le h.1)

Away-mono : (p p' q : Ptr) (xs : List Ptr) → p ≤ p' → Away p q xs → Away p' q xs
Away-mono p p' q [] le h = tt
Away-mono p p' q (x ∷ xs) le h = (omega arith, Away-mono p p' q xs le h.1)

-- A pool of objects of `size` bytes that holds the free objects `xs`.
abbrev pub Pool : ℕ → ℕ → List Ptr → PoolAllocator × Store → Type 0
Pool size offset xs (a, s) = Holds a s xs × (a.offset ≡ offset) × (a.object_size ≡ size)

free_ptr-Pool :
    (size offset : ℕ) (a : PoolAllocator) (p : Ptr) (s : Store) (xs : List Ptr)
    → Pool size offset xs (a, s)
    → Out p xs
    → 0 < p
    → p + offset < usize_mod
    → length xs < usize_mod - 1
    → Returns (Pool size offset (p ∷ xs)) (free_ptr a p s)
free_ptr-Pool size offset a p s xs (h, e_o, e_s) out pos fits room =
    Returns-mono _ (Pool size offset (p ∷ xs)) (free_ptr a p s)
      (free_ptr-Freed a s xs p h
        (record { out = out; not_null = omega arith; in_word = omega arith; room = room }))
      (λ (a', s') (h', f, g). (h', f ∙ e_o, g ∙ e_s))

add_objects-Pool :
    (n size offset : ℕ) (a : PoolAllocator) (p q : Ptr) (s : Store) (xs : List Ptr)
    → Pool size offset xs (a, s)
    → Away p q xs
    → 0 < p
    → 0 < size
    → p + n * size ≤ q
    → q + offset < usize_mod
    → length xs + n < usize_mod
    → Returns (Pool size offset (objects n size p xs)) (add_objects n a p s)
unfolding add_objects
add_objects-Pool zero size offset a p q s xs h away pos some_size end fits room = h
add_objects-Pool (suc n) size offset a p q s xs (h, e_o, e_s) away pos some_size end fits room =
    let next : add_usize p a.object_size ≡ p + size = omega arith in
    let out = Away-Out p q xs (omega arith) away in
    rw next (
      Returns->>= (Pool size offset (objects (suc n) size p xs)) (free_ptr a p s) _
        (free_ptr-Pool size offset a p s xs (h, e_o, e_s) out pos (omega arith) (omega arith))
        λ (a', s') held.
          add_objects-Pool n size offset a' (p + size) q s' (p ∷ xs) held
            (inl (omega arith), Away-mono p (p + size) q xs (omega arith) away) (omega arith)
            some_size (omega arith) fits (omega arith))

-- Where `add_pool` puts its objects: from the first aligned address of the area, as many as fit.
abbrev pub padding : ObjectType → Ptr → ℕ
padding t p = if p % t.align == 0 then 0 else t.align - p % t.align

-- `add_pool` does not panic on an area inside the address space that no free object starts in and
-- that is at least as long as its padding: it adds the objects that fit into the area behind the
-- padding, one after another, the last one on top, and keeps the objects that were free.
pub add_pool-Pool :
    (t : ObjectType) (size offset : ℕ) (a : PoolAllocator) (p n : ℕ) (s : Store) (xs : List Ptr)
    → Pool size offset xs (a, s)
    → Away p (p + n) xs
    → 0 < p
    → 0 < size
    → padding t p ≤ n
    → p + n + offset < usize_mod
    → length xs + n < usize_mod
    → Returns
        (Pool size offset (objects ((n - padding t p) / size) size (p + padding t p) xs))
        (add_pool t a p n s)
unfolding add_pool
add_pool-Pool t size offset a p n s xs (h, e_o, e_s) away pos some_size pad fits room =
    let e1 : sub_usize n (padding t p) ≡ n - padding t p = omega arith in
    let e2 : add_usize p (padding t p) ≡ p + padding t p = omega arith in
    let rounds : ℕ = (n - padding t p) / size in
    let whole : rounds * size ≤ n - padding t p =
      omega (arith, div-add-mod' (n - padding t p) size) in
    let few : rounds ≤ rounds * size = grind arith in
    simp (e1, e2, e_s)
      (add_objects-Pool rounds size offset a (p + padding t p) (p + n) s xs (h, e_o, e_s)
        (Away-mono p (p + padding t p) (p + n) xs (omega arith) away) (omega arith) some_size
        (omega arith) fits (omega arith))
