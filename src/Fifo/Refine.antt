-- ===== src/Fifo/Refine.antt =====
-- The queue against a list of at most one value less than the slots.
use methylenix.Base.{
  ℕ, ◌+◌, ◌-◌, ◌≡◌, refl, sym, ap, ◌∙◌, Bool, true, false, Option, none, some, List, [], ◌∷◌, ◌++◌,
  leb, ltb, ◌==◌, if◌then◌else◌, arith, Bool-cases, inl, inr, length, Panics, ◌>>=◌, Returns,
  Returns-cases,
}
use methylenix.Fifo.{Fifo, next_pointer, claim, store, enqueue, dequeue}
use methylenix.Fifo.Items.{
  IsFifo, contents, count, next_pointer_lem, length-items, count-write, count-read, items-write,
}

pub data Operation (A : Type 0) : Type 0 where
  enqueuing : A → Operation A
  dequeuing : Operation A

pub data Answer (A : Type 0) : Type 0 where
  enqueued : Bool → Answer A
  dequeued : Option A → Answer A

-- What the calls return, one after the other.
abbrev pub answers : {A : Type 0} → List (Operation A) → Fifo A → Panics (List (Answer A))
answers [] f = some []
answers (enqueuing v ∷ ops) f = do
  (b, f') ← enqueue v f
  rest ← answers ops f'
  some (enqueued b ∷ rest)
answers (dequeuing ∷ ops) f = do
  (o, f') ← dequeue f
  rest ← answers ops f'
  some (dequeued o ∷ rest)

-- What a list that holds at most `capacity` values returns.
abbrev pub queue_answers : {A : Type 0} → ℕ → List (Operation A) → List A → List (Answer A)
queue_answers capacity [] q = []
queue_answers capacity (enqueuing v ∷ ops) q =
    if ltb (length q) capacity
    then enqueued true ∷ queue_answers capacity ops (q ++ v ∷ [])
    else enqueued false ∷ queue_answers capacity ops q
queue_answers capacity (dequeuing ∷ ops) [] = dequeued none ∷ queue_answers capacity ops []
queue_answers capacity (dequeuing ∷ ops) (x ∷ q) = dequeued (some x) ∷ queue_answers capacity ops q

pub record Enqueued {A : Type 0} (f : Fifo A) (v : A) (r : Bool × Fifo A) : Type 0 where
  pub valid : IsFifo r.1
  pub same_size : r.1.size ≡ f.size
  pub answer : r.0 ≡ ltb (length (contents f)) (f.size - 1)
  pub after : contents r.1 ≡ (if r.0 then contents f ++ v ∷ [] else contents f)

module _ {A : Type 0} (f : Fifo A) (v : IsFifo f) where
  length-contents : length (contents f) ≡ count f.size f.read_pointer f.write_pointer
  length-contents =
      length-items f.size f.buf f.read_pointer (count f.size f.read_pointer f.write_pointer)

  claim_full : (next_pointer f.size f.write_pointer == f.read_pointer) ≡ true → claim f ≡ none
  unfolding claim
  claim_full full = rw full refl

  claim_room :
      (next_pointer f.size f.write_pointer == f.read_pointer) ≡ false
      → claim f
        ≡ some (f.write_pointer, record f { write_pointer = next_pointer f.size f.write_pointer })
  unfolding claim
  claim_room room = rw room refl

  pub enqueue-Enqueued : (x : A) → Returns (Enqueued f x) (enqueue x f)
  unfolding enqueue store
  enqueue-Enqueued x =
      let next : ℕ = if leb f.size (f.write_pointer + 1) then 0 else f.write_pointer + 1 in
      let e : next_pointer f.size f.write_pointer ≡ next =
        next_pointer_lem f.size f.write_pointer v.writes v.small in
      let reads = v.reads in
      let writes = v.writes in
      elim (Bool-cases (next_pointer f.size f.write_pointer == f.read_pointer)) [
        | inl full ↦
            let full' : (next == f.read_pointer) ≡ true = rw e at full in
            rw (claim_full full, enqueue)
              (record {
                valid = v;
                same_size = refl;
                answer = rw length-contents (ground arith);
                after = refl;
              })
        | inr room ↦
            let inside : ltb f.write_pointer f.size ≡ true = ground arith in
            let room' : (next == f.read_pointer) ≡ false = rw e at room in
            rw (claim_room room, inside, enqueue)
              (record {
                valid = record { reads = v.reads; writes = rw e (ground arith); small = v.small };
                same_size = refl;
                answer = rw length-contents (ground arith);
                after =
                    rw
                      (
                        e,
                        count-write f.size f.read_pointer f.write_pointer v.reads v.writes
                            (ground arith),
                      )
                      (items-write f.size x f.buf f.read_pointer f.write_pointer v.reads v.writes);
              })
      ]

pub record Dequeued {A : Type 0} (f : Fifo A) (r : Option A × Fifo A) : Type 0 where
  pub valid : IsFifo r.1
  pub same_size : r.1.size ≡ f.size
  pub front : contents f ≡ (elim r.0 [ none ↦ [] | some x ↦ x ∷ contents r.1 ])
  pub empty : r.0 ≡ none → r.1 ≡ f

pub dequeue-Dequeued : {A : Type 0} (f : Fifo A) → IsFifo f → Returns (Dequeued f) (dequeue f)
unfolding dequeue
dequeue-Dequeued f v =
    let e = next_pointer_lem f.size f.read_pointer v.reads v.small in
    let reads = v.reads in
    let writes = v.writes in
    elim (Bool-cases (f.read_pointer == f.write_pointer)) [
      | inl none_left ↦
          let zero_count : count f.size f.read_pointer f.write_pointer ≡ 0 = ground arith in
          rw none_left
            (record { valid = v; same_size = refl; front = rw zero_count refl; empty = λ h. refl })
      | inr some_left ↦
          let inside : ltb f.read_pointer f.size ≡ true = ground arith in
          rw (some_left, inside)
            (record {
              valid = record { reads = rw e (ground arith); writes = v.writes; small = v.small };
              same_size = refl;
              front =
                  rw
                    (
                      e,
                      count-read f.size f.read_pointer f.write_pointer v.reads v.writes
                          (ground arith),
                    )
                    refl;
              empty = λ h. absurd (cc);
            })
    ]

Enqueued-answers :
    {A : Type 0} (f : Fifo A) (v : A) (ops : List (Operation A)) (b : Bool) (f' : Fifo A)
    → Enqueued f v (b, f')
    → queue_answers (f.size - 1) (enqueuing v ∷ ops) (contents f)
      ≡ enqueued b ∷ queue_answers (f'.size - 1) ops (contents f')
Enqueued-answers f v ops true f' e =
    let after = e.after in rw (sym e.answer, e.after, e.same_size) refl
Enqueued-answers f v ops false f' e =
    let after = e.after in rw (sym e.answer, e.after, e.same_size) refl

Dequeued-answers :
    {A : Type 0} (f : Fifo A) (ops : List (Operation A)) (o : Option A) (f' : Fifo A)
    → Dequeued f (o, f')
    → queue_answers (f.size - 1) (dequeuing ∷ ops) (contents f)
      ≡ dequeued o ∷ queue_answers (f'.size - 1) ops (contents f')
Dequeued-answers f ops none f' d =
    let e : contents f ≡ [] = d.front in let same : f' ≡ f = d.empty refl in rw (same, e) refl
Dequeued-answers f ops (some x) f' d = rw (d.front, d.same_size) refl

-- From every state whose pointers are slots, every sequence of calls of `enqueue` and `dequeue` by one thread
-- returns what a list returns that holds at most one value less than there are slots: a value is
-- enqueued at the end unless the list is full, and dequeued from the front unless it is empty. No call panics.
pub answers-queue :
    {A : Type 0} (ops : List (Operation A)) (f : Fifo A)
    → IsFifo f
    → answers ops f ≡ some (queue_answers (f.size - 1) ops (contents f))
answers-queue [] f v = refl
answers-queue (enqueuing x ∷ ops) f v =
    let ((b, f'), run, e) = Returns-cases (Enqueued f x) (enqueue x f) (enqueue-Enqueued f v x) in
    rw (run, answers-queue ops f' e.valid) (ap some (sym (Enqueued-answers f x ops b f' e)))
answers-queue (dequeuing ∷ ops) f v =
    let ((o, f'), run, d) = Returns-cases (Dequeued f) (dequeue f) (dequeue-Dequeued f v) in
    rw (run, answers-queue ops f' d.valid) (ap some (sym (Dequeued-answers f ops o f' d)))

-- What an early `dequeue` returns, and leaves behind.
abbrev pub Early : {A : Type 0} → A → ℕ → A → Option A × Fifo A → Type 0
Early old p v r = (r.0 ≡ some old) × Returns (λ f''. contents f'' ≡ []) (store p v r.1)

module _ {A : Type 0} (f : Fifo A) (v : A) (valid : IsFifo f) where
  early :
      f.read_pointer ≡ f.write_pointer
      → (next_pointer f.size f.write_pointer == f.read_pointer) ≡ false
      → Returns
          (Early (f.buf f.write_pointer) f.write_pointer v)
          (dequeue (record f { write_pointer = next_pointer f.size f.write_pointer }))
  unfolding dequeue store
  early same room =
      let writes = valid.writes in
      let inside : ltb f.write_pointer f.size ≡ true = ground arith in
      let other : (f.write_pointer == next_pointer f.size f.write_pointer) ≡ false = ground arith in
      let zero_count : count f.size (next_pointer f.size f.write_pointer)
            (next_pointer f.size f.write_pointer)
          ≡ 0 =
        ground arith in
      rw (same, other, inside) (refl, rw (inside, zero_count) refl)

-- Where a `dequeue` runs between the exchange of an `enqueue` on an empty queue and its write to the
-- slot, it returns what the slot held before, and the value that is written then is not in the queue.
pub dequeue_before_store :
    {A : Type 0} (f f' : Fifo A) (p : ℕ) (v : A)
    → IsFifo f
    → contents f ≡ []
    → claim f ≡ some (p, f')
    → Returns (Early (f.buf p) p v) (dequeue f')
dequeue_before_store f f' p v valid empty run =
    let no_value : count f.size f.read_pointer f.write_pointer ≡ 0 =
      sym (length-contents f valid) ∙ ap length empty in
    let same : f.read_pointer ≡ f.write_pointer = ground (arith, valid.reads, valid.writes) in
    elim (Bool-cases (next_pointer f.size f.write_pointer == f.read_pointer)) [
      | inl full ↦ let none_left = claim_full f valid full in absurd cc
      | inr room ↦
          let claimed = claim_room f valid room in
          let slot : p ≡ f.write_pointer = cc in
          let after : f' ≡ record f { write_pointer = next_pointer f.size f.write_pointer } = cc in
          rw (slot, after) (early f v valid same room)
    ]
