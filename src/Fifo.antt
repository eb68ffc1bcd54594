-- ===== src/Fifo.antt =====
-- kernel/collections/fifo.rs: the queue of a fixed number of slots. The array is the value of each slot, and
-- an index out of its range panics. A round of a loop in which no other thread moves the pointer between the
-- load and the exchange succeeds, so that a call by one thread is one round.
pub mod Items
pub mod Refine
mod Tests
use methylenix.Base.{
  ℕ, zero, suc, ◌+◌, Bool, true, false, Option, none, some, leb, ltb, ◌==◌, if◌then◌else◌, Panics,
  ◌>>=◌, ◌>>◌, assert, add_usize,
}

pub record Fifo (A : Type 0) : Type 0 where
  pub buf : ℕ → A
  pub read_pointer : ℕ
  pub write_pointer : ℕ
  pub size : ℕ

unfoldable pub new : {A : Type 0} → ℕ → A → Fifo A
new f_size default_value = record {
  buf = λ i. default_value;
  read_pointer = 0;
  write_pointer = 0;
  size = f_size;
}

-- The pointer behind `p`, back to the first slot behind the last one.
unfoldable pub next_pointer : ℕ → ℕ → ℕ
next_pointer size p = if leb size (add_usize p 1) then 0 else add_usize p 1

-- The slot that `enqueue` takes by its exchange; `none` where the queue is full.
unfoldable pub claim : {A : Type 0} → Fifo A → Option (ℕ × Fifo A)
unfolding next_pointer
claim f =
    let next = next_pointer f.size f.write_pointer in
    if next == f.read_pointer
    then none
    else some (f.write_pointer, record f { write_pointer = next })

abbrev pub set : {A : Type 0} → ℕ → A → (ℕ → A) → ℕ → A
set p v buf i = if i == p then v else buf i

-- `self.buf[p] = v`
unfoldable pub store : {A : Type 0} → ℕ → A → Fifo A → Panics (Fifo A)
store p v f = do assert (ltb p f.size); some (record f { buf = set p v f.buf })

unfoldable pub enqueue : {A : Type 0} → A → Fifo A → Panics (Bool × Fifo A)
enqueue v f = elim (claim f) [
  | none ↦ some (false, f)
  | some (p, f') ↦ do f'' ← store p v f'; some (true, f'')
]

unfoldable pub dequeue : {A : Type 0} → Fifo A → Panics (Option A × Fifo A)
unfolding next_pointer
dequeue f = if f.read_pointer == f.write_pointer then some (none, f) else do
  assert (ltb f.read_pointer f.size)
  some (some (f.buf f.read_pointer), record f { read_pointer = next_pointer f.size f.read_pointer })
