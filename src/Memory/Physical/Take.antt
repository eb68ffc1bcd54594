-- ===== src/Memory/Physical/Take.antt =====
-- What `take_from` leaves of an entry.
use methylenix.Base.{
  ℕ, suc, ◌+◌, ◌-◌, ◌^◌, ◌≤◌, ◌<◌, ◌≡◌, ◌≢◌, not, ◌&&◌, some, List, [], ◌∷◌, arith, ◌⊎◌, inl, inr,
  Returns,
}
use methylenix.Memory.Error.{MemoryError}
use methylenix.Memory.Physical.{
  MemoryEntry, Rest, nothing_left, one_left, two_left, no_rest, take_from,
}
use methylenix.Memory.Physical.Areas.{Between, inside, covers, total}

-- The bytes from `a` on can be taken from `e` so that no single byte stays on either side.
pub record Fits (a n : ℕ) (e : MemoryEntry) : Type 0 where
  pub some_size : 0 < n
  pub from : e.start ≤ a
  pub to : a + n ≤ suc e.end
  pub before : (a ≡ e.start) ⊎ (suc e.start < a)
  pub behind : (a + n ≡ suc e.end) ⊎ (a + n < e.end)

abbrev pub pieces : Rest → List MemoryEntry
pieces nothing_left = []
pieces (one_left e) = e ∷ []
pieces (two_left e f) = e ∷ f ∷ []
pieces (no_rest x) = []

-- What `take_from` leaves of `e`.
pub record Left (e : MemoryEntry) (a n : ℕ) (r : Rest) : Type 0 where
  pub succeeds : (x : MemoryError) → r ≢ no_rest x
  pub within : Between e.start (pieces r) (suc e.end)
  pub uncovered :
      (x : ℕ) → covers (pieces r) x ≡ (inside e.start e.end x && not (inside a (a + n - 1) x))
  pub counted : total (pieces r) + n ≡ e.end - e.start + 1

abbrev pub area : ℕ → ℕ → MemoryEntry
area start end = record { start = start; end = end }

-- The four ways to take bytes from an entry.
module _ (pool : ℕ) (e : MemoryEntry) (a n : ℕ) (some_size : 0 < n) (small : e.end < 2 ^ 63) where
  take_all : a ≡ e.start → a + n ≡ suc e.end → take_from pool e a n ≡ some nothing_left
  unfolding take_from
  take_all p q = ground arith

  take_head :
      a ≡ e.start → a + n < e.end → take_from pool e a n ≡ some (one_left (area (a + n) e.end))
  unfolding take_from
  take_head p q = ground arith

  take_tail :
      suc e.start < a
      → a + n ≡ suc e.end
      → take_from pool e a n ≡ some (one_left (area e.start (a - 1)))
  unfolding take_from
  take_tail p q = ground arith

  take_middle :
      0 < pool
      → suc e.start < a
      → a + n < e.end
      → take_from pool e a n ≡ some (two_left (area e.start (a - 1)) (area (a + n) e.end))
  unfolding take_from
  take_middle some_entry p q = ground arith

pub take_from-Left :
    (pool : ℕ) (e : MemoryEntry) (a n : ℕ)
    → 0 < pool
    → e.end < 2 ^ 63
    → Fits a n e
    → Returns (Left e a n) (take_from pool e a n)
take_from-Left pool e a n some_entry small f = elim f.before [
  | inl p ↦ elim f.behind [
    | inl q ↦ rw (take_all pool e a n f.some_size small p q) (record {
      succeeds = λ x. cc;
      within = ground arith;
      uncovered = λ x. ground arith;
      counted = ground arith;
    })
    | inr q ↦ rw (take_head pool e a n f.some_size small p q) (record {
      succeeds = λ x. cc;
      within = ground arith;
      uncovered = λ x. ground arith;
      counted = ground arith;
    })
  ]
  | inr p ↦ elim f.behind [
    | inl q ↦ rw (take_tail pool e a n f.some_size small p q) (record {
      succeeds = λ x. cc;
      within = ground arith;
      uncovered = λ x. ground arith;
      counted = ground arith;
    })
    | inr q ↦ rw (take_middle pool e a n f.some_size small some_entry p q) (record {
      succeeds = λ x. cc;
      within = ground arith;
      uncovered = λ x. ground arith;
      counted = ground arith;
    })
  ]
]
