-- ===== src/Memory/Physical/Alloc.antt =====
-- What `alloc` finds, and what it leaves.
use native.Mathlib.Nat.{div-add-mod', pow-suc}
use native.Mathlib.Decide.{dec_lt}
use methylenix.Base.{
  ℕ, zero, suc, ◌+◌, ◌-◌, ◌*◌, ◌/◌, ◌%◌, ◌^◌, ◌≤◌, ◌<◌, ◌≡◌, ◌≢◌, refl, sym, ◌∙◌, true, false,
  Option, none, some, List, [], ◌∷◌, leb, ◌==◌, arith, inl, inr, Bool-cases, ◌>>=◌, Returns,
  Returns->>=, Returns-cases,
}
use methylenix.Memory.Order.{to_offset, one_shl_lem}
use methylenix.Memory.PageOrder.{from_offset-IsPageOrder}
use methylenix.Memory.Error.{address_not_available}
use methylenix.Memory.Physical.{
  MemoryEntry, PhysicalMemoryManager, Outcome, done, failed, order_of, size_to_page_order, place_in,
  search_lists, alloc, define_used_memory, at_address, is_only, num_of_free_list,
}
use methylenix.Memory.Physical.Areas.{inside, covers, Member, Member-Between, covers-Member}
use methylenix.Memory.Physical.Search.{
  Placed, PlacedIf, NoPlace, Total, SearchedAll, get_size_run, place_in-Placed,
  search_lists-Searched, too_small,
}
use methylenix.Memory.Physical.Take.{Fits}
use methylenix.Memory.Physical.Used.{IsManaged, UsedUp, define_used_memory-UsedUp, order_of_area}

-- Each area and the size are whole pairs of bytes, so that no single byte is ever left.
abbrev pub IsEven : List MemoryEntry → Type 0
IsEven [] = Unit
IsEven (e ∷ es) = (e.start % 2 ≡ 0) × (e.end % 2 ≡ 1) × IsEven es

-- What `alloc` returns: an aligned address of bytes that were free, which are in use afterwards; or an error,
-- where no free area can hold them.
abbrev pub Allocated : PhysicalMemoryManager → ℕ → ℕ → Outcome ℕ → Type 0
Allocated m n align (failed x) =
    (x ≡ address_not_available) × ((e : MemoryEntry) → Member e m.chain → NoPlace e n align)
Allocated m n align (done address m') =
    ((align ≢ 0) → address % to_offset align ≡ 0)
    × ((x : ℕ) → inside address (address + n - 1) x ≡ true → covers m.chain x ≡ true)
    × UsedUp m address n (done tt m')

halved : (q p r x : ℕ) → q * (p * 2) + r ≡ x → r ≡ 0 → x ≡ q * p * 2
halved q p r x whole part = grind arith

even_of_aligned : (x align : ℕ) → align ≢ 0 → align ≤ 12 → x % to_offset align ≡ 0 → x % 2 ≡ 0
unfolding to_offset
even_of_aligned x zero some_align le h = absurd (some_align refl)
even_of_aligned x (suc k) some_align le h =
    let size : to_offset (suc k) ≡ 2 ^ k * 2 = one_shl_lem (suc k) (omega arith) ∙ pow-suc 2 k in
    let part : x % (2 ^ k * 2) ≡ 0 = rw (sym size) h in
    let whole = div-add-mod' x (2 ^ k * 2) in
    let halves : x ≡ x / (2 ^ k * 2) * 2 ^ k * 2 =
      halved (x / (2 ^ k * 2)) (2 ^ k) (x % (2 ^ k * 2)) x whole part in
    omega arith

-- Bytes that are placed in an entry of whole pairs leave no single byte beside them.
Placed-Fits :
    (e : MemoryEntry) (n align address : ℕ)
    → e.start % 2 ≡ 0
    → e.end % 2 ≡ 1
    → n % 2 ≡ 0
    → 0 < n
    → align ≤ 12
    → Placed e n align address
    → Fits address n e
Placed-Fits e n align address even odd pairs pos le p =
    let parity : address % 2 ≡ 0 = (elim (Bool-cases (align == 0)) [
      | inl free ↦ rw (p.unaligned (ground arith)) even
      | inr aligned ↦ even_of_aligned address align (ground arith) le (p.aligned (ground arith))
    ]) in
    record {
      some_size = pos;
      from = p.from;
      to = p.to;
      before = elim (dec_lt (suc e.start) address) [
        | yes behind ↦ inr behind
        | no near ↦ let from = p.from in inl (omega arith)
      ];
      behind = elim (dec_lt (address + n) e.end) [
        | yes before ↦ inr before
        | no near ↦ let to = p.to in inl (omega arith)
      ];
    }

Member-IsEven :
    (e : MemoryEntry) (es : List MemoryEntry)
    → Member e es
    → IsEven es
    → (e.start % 2 ≡ 0) × (e.end % 2 ≡ 1)
Member-IsEven e [] m h = absurd m
Member-IsEven e (f ∷ fs) (inl same) h = rw (sym same) (h.0, h.1)
Member-IsEven e (f ∷ fs) (inr there) h = Member-IsEven e fs there h.2

order_bounded :
    (e : MemoryEntry) (j : ℕ) → e.start ≤ e.end → e.end < 2 ^ 63 → order_of e ≡ some j → j ≤ 11
unfolding order_of size_to_page_order
order_bounded e j h small o =
    let (r, run, is) =
      from_offset-IsPageOrder (e.end - e.start + 1) 11 (omega arith) (omega arith) in
    let low : some j ≡ some r = sym (rw (get_size_run e h small) at o) ∙ run in
    let same : r ≡ j = cc in rw (sym same) is.bounded

Member-bounds :
    (m : PhysicalMemoryManager) (e : MemoryEntry)
    → IsManaged m
    → Member e m.chain
    → (e.start ≤ e.end) × (e.end < 2 ^ 63)
Member-bounds m e v member =
    let b = Member-Between 0 (2 ^ 63) e m.chain v.areas member in (b.1, b.2)

module _ (m : PhysicalMemoryManager) (n align : ℕ) (v : IsManaged m) (le : align ≤ 12)
    (pos : 0 < n) where
  place_in-Total : (e : MemoryEntry) → Member e m.chain → Total (e ∷ []) n align
  place_in-Total e member f here =
      let b = Member-bounds m e v member in
      let (o, run, p) =
        Returns-cases (PlacedIf e n align) (place_in e n align)
          (place_in-Placed e n align b.0 b.1 le pos) in
      elim here [ inl same ↦ rw (sym same) (o, run) | inr there ↦ absurd there ]

  all-Total : (k : ℕ) → Total (m.free_list k) n align
  all-Total k e here = place_in-Total e (v.listed.sound k e here).0 e (inl refl)

  -- Where the lists from the order of the size on hold no place, no free area does.
  nothing_found :
      (p : ℕ)
      → n ≤ 2 ^ 63
      → size_to_page_order n ≡ some p
      → p ≤ 11
      → SearchedAll (num_of_free_list - p) p m.free_list n align none
      → (e : MemoryEntry) → Member e m.chain
      → NoPlace e n align
  nothing_found p word run low searched e member =
      let b = Member-bounds m e v member in
      let (j, o) = order_of_area e b.0 b.1 in
      let none_in : place_in e n align ≡ some none = (elim (dec_lt j p) [
        | yes below ↦ too_small e n align j p b.0 b.1 word o run below
        | no from ↦
            searched j (omega arith) (omega (arith, order_bounded e j b.0 b.1 o)) e
              (v.listed.complete j e member o)
      ]) in
      rw none_in at (place_in-Placed e n align b.0 b.1 le pos)

  free_bytes :
      (e : MemoryEntry) (address x : ℕ)
      → Member e m.chain
      → Placed e n align address
      → inside address (address + n - 1) x ≡ true
      → covers m.chain x ≡ true
  free_bytes e address x member p here =
      covers-Member e m.chain x member (let a = p.from in let b = p.to in ground arith)

  taken :
      (e : MemoryEntry) (address : ℕ) (r : Outcome (Unit {0}))
      → Member e m.chain
      → Placed e n align address
      → UsedUp m address n r
      → Allocated m n align (at_address address r)
  taken e address (failed x) member p used = absurd used
  taken e address (done u m') member p used =
      (p.aligned, λ x. free_bytes e address x member p, used)

  found :
      (e : MemoryEntry) (address k : ℕ)
      → IsEven m.chain
      → is_only m.chain ≡ false
      → 0 < m.memory_entry_pool
      → n % 2 ≡ 0
      → Member e (m.free_list k)
      → place_in e n align ≡ some (some address)
      → Returns
          (Allocated m n align)
          (define_used_memory m address n 0 (some e) >>= λ r. some (at_address address r))
  found e address k even more pool pairs listed run =
      let member = (v.listed.sound k e listed).0 in
      let b = Member-bounds m e v member in
      let p : Placed e n align address = rw run at (place_in-Placed e n align b.0 b.1 le pos) in
      let (s, t) = Member-IsEven e m.chain member even in
      Returns->>= (Allocated m n align) (define_used_memory m address n 0 (some e)) _
        (define_used_memory-UsedUp m e address n v member more pool
          (Placed-Fits e n align address s t pairs pos le p))
        (λ r used. taken e address r member p used)

  searched :
      (p : ℕ) (o : Option (MemoryEntry × ℕ))
      → IsEven m.chain
      → is_only m.chain ≡ false
      → 0 < m.memory_entry_pool
      → n % 2 ≡ 0
      → n ≤ 2 ^ 63
      → size_to_page_order n ≡ some p
      → p ≤ 11
      → search_lists (num_of_free_list - p) p m.free_list n align ≡ some o
      → SearchedAll (num_of_free_list - p) p m.free_list n align o
      → (n == 0) ≡ false
      → leb m.free_memory_size n ≡ false
      → Returns (Allocated m n align) (alloc m n align)
  unfolding alloc
  searched p none even more pool pairs word order low run s some_size enough =
      rw (some_size, enough, order, run) (refl, nothing_found p word order low s)
  searched p (some (e, address)) even more pool pairs word order low run (k, listed, place)
        some_size enough =
      rw (some_size, enough, order, run) (found e address k even more pool pairs listed place)

-- In a managed state whose areas are whole pairs of bytes, two areas or more, with an entry left in the
-- pool, `alloc` of an even number of bytes, fewer than are free, at an alignment of 2 ^ 12 at most, does not panic. It fails only where no free
-- area can hold the bytes at an aligned address. Otherwise the bytes at the address were free, the address
-- is aligned, and afterwards exactly those bytes are no longer free, in a managed state.
pub alloc-Allocated :
    (m : PhysicalMemoryManager) (n align : ℕ)
    → IsManaged m
    → IsEven m.chain
    → is_only m.chain ≡ false
    → 0 < m.memory_entry_pool
    → 0 < n
    → n % 2 ≡ 0
    → n < m.free_memory_size
    → n ≤ 2 ^ 63
    → align ≤ 12
    → Returns (Allocated m n align) (alloc m n align)
unfolding size_to_page_order
alloc-Allocated m n align v even more pool pos pairs less word le =
    let (p, order, is) = from_offset-IsPageOrder n 11 word (omega arith) in
    let (o, run, s) =
      Returns-cases (SearchedAll (num_of_free_list - p) p m.free_list n align)
        (search_lists (num_of_free_list - p) p m.free_list n align)
        (search_lists-Searched (num_of_free_list - p) p m.free_list n align
          (all-Total m n align v le pos)) in
    searched m n align v le pos p o even more pool pairs word order is.bounded run s (ground arith)
      (ground arith)
