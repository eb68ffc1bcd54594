-- ===== src/Memory/Physical/Search.antt =====
-- The search of `alloc` through the free lists.
use native.Mathlib.Nat.{div-add-mod', add-mul, one-mul, lt_of_mul-lt-mul_right, mul-le-mul_right}
use native.Mathlib.Decide.{dec_lt}
use methylenix.Base.{
  ℕ, zero, suc, ◌+◌, ◌-◌, ◌*◌, ◌/◌, ◌%◌, ◌^◌, ◌≤◌, ◌<◌, ◌≡◌, ◌≢◌, refl, sym, ◌∙◌, false, Option,
  none, some, List, [], ◌∷◌, leb, ltb, ◌==◌, if◌then◌else◌, arith, inl, inr, Bool-cases, Returns,
  Returns->>=, Returns-mono, Returns-cases, not_leb→lt, leb→le, not_ltb→le, ltb→lt,
}
use methylenix.Memory.Order.{to_offset, to_offset_bounds}
use methylenix.Memory.PageOrder.{from_offset-IsPageOrder}
use methylenix.Memory.Size.{from_address}
use methylenix.Memory.Align.{
  align_address_and_available_size, Available, align_address_and_available_size-Available,
}
use methylenix.Memory.Physical.{
  MemoryEntry, get_size, order_of, size_to_page_order, place_in, search_list, search_lists,
}
use methylenix.Memory.Physical.Areas.{Member}

pub get_size_run :
    (e : MemoryEntry) → e.start ≤ e.end → e.end < 2 ^ 63 → get_size e ≡ some (e.end - e.start + 1)
unfolding get_size from_address
get_size_run e h small = ground arith

-- The bytes stand in the entry, at an aligned address.
pub record Placed (e : MemoryEntry) (n align address : ℕ) : Type 0 where
  pub from : e.start ≤ address
  pub to : address + n ≤ suc e.end
  pub aligned : (align ≢ 0) → address % to_offset align ≡ 0
  pub unaligned : align ≡ 0 → address ≡ e.start

-- No aligned address of the entry has the bytes behind it.
abbrev pub NoPlace : MemoryEntry → ℕ → ℕ → Type 0
NoPlace e n align = (a : ℕ) → e.start ≤ a → a + n ≤ suc e.end → a % to_offset align ≡ 0 → ⊥

abbrev pub PlacedIf : MemoryEntry → ℕ → ℕ → Option ℕ → Type 0
PlacedIf e n align none = NoPlace e n align
PlacedIf e n align (some address) = Placed e n align address

-- No multiple of `m` stands between two that are less than `m` apart.
no_earlier : (m a b : ℕ) → 0 < m → a % m ≡ 0 → b % m ≡ 0 → a < b + m → a ≤ b
no_earlier m a b pos p q near =
    let whole = div-add-mod' a m in
    let whole' = div-add-mod' b m in
    let close : a / m * m < (b / m + 1) * m = omega (arith, add-mul (b / m) 1 m, one-mul m) in
    let below = lt_of_mul-lt-mul_right m close in
    omega (arith, mul-le-mul_right {m = a / m} {n = b / m} m (omega arith))

pub place_in-Placed :
    (e : MemoryEntry) (n align : ℕ)
    → e.start ≤ e.end
    → e.end < 2 ^ 63
    → align ≤ 12
    → 0 < n
    → Returns (PlacedIf e n align) (place_in e n align)
unfolding place_in
place_in-Placed e n align h small le pos =
    rw (get_size_run e h small) (elim (Bool-cases (leb n (e.end - e.start + 1))) [
      | inr large ↦
          rw large (λ a from to aligned. omega (arith, not_leb→lt n (e.end - e.start + 1) large))
      | inl room ↦ rw room (elim (Bool-cases (align == 0)) [
        | inl free ↦ rw free (record {
          from = omega arith;
          to = omega (arith, leb→le n (e.end - e.start + 1) room);
          aligned = λ some_align. absurd (ground arith);
          unaligned = λ no_align. refl;
        })
        | inr aligned ↦ rw aligned (
            Returns->>= (PlacedIf e n align)
              (align_address_and_available_size e.start (e.end - e.start + 1) align) _
              (align_address_and_available_size-Available e.start (e.end - e.start + 1) align le
                (omega arith))
              (λ (address, available) a. placed address available a aligned))
      ])
    ])
  where
    placed :
        (address available : ℕ)
        → Available e.start (e.end - e.start + 1) (to_offset align) (address, available)
        → (align == 0) ≡ false
        → Returns (PlacedIf e n align) (if ltb available n then some none else some (some address))
    placed address available a aligned = elim (Bool-cases (ltb available n)) [
      | inl short ↦ rw short (λ b from to even. omega (
        arith,
        no_earlier (to_offset align) address b (to_offset_bounds align le).0 a.aligned even
            (omega arith),
        ltb→lt available n short,
      ))
      | inr room ↦ rw room (record {
        from = a.starts;
        to = omega (arith, a.left, a.starts, not_ltb→le available n room);
        aligned = λ some_align. a.aligned;
        unaligned = λ no_align. absurd (ground arith);
      })
    ]

-- What a search of a list answers.
abbrev Searched : List MemoryEntry → ℕ → ℕ → Option (MemoryEntry × ℕ) → Type 0
Searched es n align none = (e : MemoryEntry) → Member e es → place_in e n align ≡ some none
Searched es n align (some (e, address)) = Member e es × (place_in e n align ≡ some (some address))

Searched-cons :
    (f : MemoryEntry) (fs : List MemoryEntry) (n align : ℕ) (o : Option (MemoryEntry × ℕ))
    → place_in f n align ≡ some none
    → Searched fs n align o
    → Searched (f ∷ fs) n align o
Searched-cons f fs n align none run s =
    λ e m. elim m [ inl same ↦ rw (sym same) run | inr there ↦ s e there ]
Searched-cons f fs n align (some (e, address)) run s = (inr s.0, s.1)

search_list_step :
    (f : MemoryEntry) (fs : List MemoryEntry) (n align : ℕ) (o : Option ℕ)
    → place_in f n align ≡ some o
    → Returns (Searched fs n align) (search_list fs n align)
    → Returns (Searched (f ∷ fs) n align) (search_list (f ∷ fs) n align)
unfolding search_list
search_list_step f fs n align none run rest = rw run (
    Returns-mono (Searched fs n align) (Searched (f ∷ fs) n align) (search_list fs n align) rest
      (λ o. Searched-cons f fs n align o run))
search_list_step f fs n align (some address) run rest = rw run (inl refl, run)

abbrev pub Total : List MemoryEntry → ℕ → ℕ → Type 0
Total es n align = (e : MemoryEntry) → Member e es → (o : Option ℕ) × (place_in e n align ≡ some o)

search_list-Searched :
    (es : List MemoryEntry) (n align : ℕ)
    → Total es n align
    → Returns (Searched es n align) (search_list es n align)
unfolding search_list
search_list-Searched [] n align total = λ e m. absurd m
search_list-Searched (f ∷ fs) n align total =
    let (o, run) = total f (inl refl) in
    search_list_step f fs n align o run (search_list-Searched fs n align (λ e m. total e (inr m)))

-- What a search of the `count` lists from `order` on answers.
abbrev pub SearchedAll : ℕ → ℕ → (ℕ → List MemoryEntry) → ℕ → ℕ → Option (MemoryEntry × ℕ) → Type 0
SearchedAll count order lists n align none =
    (k : ℕ)
    → order ≤ k
    → k < order + count
    → (e : MemoryEntry) → Member e (lists k)
    → place_in e n align ≡ some none
SearchedAll count order lists n align (some (e, address)) =
    (k : ℕ) × Member e (lists k) × (place_in e n align ≡ some (some address))

search_lists_step :
    (count order : ℕ) (lists : ℕ → List MemoryEntry) (n align : ℕ) (o : Option (MemoryEntry × ℕ))
    → search_list (lists order) n align ≡ some o
    → Searched (lists order) n align o
    → Returns
        (SearchedAll count (suc order) lists n align)
        (search_lists count (suc order) lists n align)
    → Returns
        (SearchedAll (suc count) order lists n align)
        (search_lists (suc count) order lists n align)
unfolding search_lists
search_lists_step count order lists n align (some (e, address)) run s rest =
    rw run (order, s.0, s.1)
search_lists_step count order lists n align none run s rest = rw run (
    Returns-mono (SearchedAll count (suc order) lists n align)
      (SearchedAll (suc count) order lists n align) (search_lists count (suc order) lists n align)
      rest (λ o. down o))
  where
    down :
        (o : Option (MemoryEntry × ℕ))
        → SearchedAll count (suc order) lists n align o
        → SearchedAll (suc count) order lists n align o
    down none r = λ k from to e m. elim (dec_lt order k) [
      | yes above ↦ r k (omega arith) (omega arith) e m
      | no same ↦ let here : k ≡ order = omega arith in s e (rw here at m)
    ]
    down (some (e, address)) r = r

pub search_lists-Searched :
    (count order : ℕ) (lists : ℕ → List MemoryEntry) (n align : ℕ)
    → ((k : ℕ) → Total (lists k) n align)
    → Returns (SearchedAll count order lists n align) (search_lists count order lists n align)
unfolding search_lists
search_lists-Searched zero order lists n align total = λ k from to e m. absurd (omega arith)
search_lists-Searched (suc count) order lists n align total =
    let (o, run, s) =
      Returns-cases (Searched (lists order) n align) (search_list (lists order) n align)
        (search_list-Searched (lists order) n align (total order)) in
    search_lists_step count order lists n align o run s
      (search_lists-Searched count (suc order) lists n align total)

-- An entry of a lower order than that of the size is too small.
pub too_small :
    (e : MemoryEntry) (n align j p : ℕ)
    → e.start ≤ e.end
    → e.end < 2 ^ 63
    → n ≤ 2 ^ 63
    → order_of e ≡ some j
    → size_to_page_order n ≡ some p
    → j < p
    → place_in e n align ≡ some none
unfolding place_in order_of size_to_page_order
too_small e n align j p h small word o q lt =
    let size = get_size_run e h small in
    let (r, run, is) =
      from_offset-IsPageOrder (e.end - e.start + 1) 11 (omega arith) (omega arith) in
    let (t, run', is') = from_offset-IsPageOrder n 11 word (omega arith) in
    let low : some j ≡ some r = sym (rw size at o) ∙ run in
    let high : some p ≡ some t = sym q ∙ run' in
    let same : r ≡ j = cc in
    let same' : t ≡ p = cc in
    let fits = is.fits (omega (arith, is'.bounded)) in
    let least = is'.least r (omega arith) in
    let short : leb n (e.end - e.start + 1) ≡ false = ground arith in rw (size, short) refl
