-- ===== src/Fifo/Items.antt =====
-- The values that a queue holds, in order.
use methylenix.Base.{
  ℕ, zero, suc, ◌+◌, ◌-◌, ◌<◌, ◌≡◌, ◌≢◌, refl, ap, ◌∙◌, true, false, List, [], ◌∷◌, ◌++◌, leb, ◌==◌,
  if◌then◌else◌, arith, usize_mod, length, ==_ne, add_usize,
}
use methylenix.Fifo.{Fifo, next_pointer, set}

-- The pointers are slots, and there are fewer of those than bytes.
pub record IsFifo {A : Type 0} (f : Fifo A) : Type 0 where
  pub reads : f.read_pointer < f.size
  pub writes : f.write_pointer < f.size
  pub small : f.size < usize_mod

-- The number of values between the pointers.
abbrev pub count : ℕ → ℕ → ℕ → ℕ
count size r w = if leb r w then w - r else w + size - r

-- The `n` values from `r` on.
abbrev pub items : {A : Type 0} → ℕ → (ℕ → A) → ℕ → ℕ → List A
items size buf r zero = []
items size buf r (suc n) = buf r ∷ items size buf (if leb size (r + 1) then 0 else r + 1) n

abbrev pub contents : {A : Type 0} → Fifo A → List A
contents f = items f.size f.buf f.read_pointer (count f.size f.read_pointer f.write_pointer)

abbrev wrap : ℕ → ℕ → ℕ
wrap size p = if leb size p then p - size else p

pub next_pointer_lem :
    (size p : ℕ)
    → p < size
    → size < usize_mod
    → next_pointer size p ≡ (if leb size (p + 1) then 0 else p + 1)
unfolding next_pointer
next_pointer_lem size p h small = let e : add_usize p 1 ≡ p + 1 = omega arith in rw e refl

pub length-items : {A : Type 0} (size : ℕ) (buf : ℕ → A) (r n : ℕ) → length (items size buf r n) ≡ n
length-items size buf r zero = refl
length-items size buf r (suc n) =
    ap suc (length-items size buf (if leb size (r + 1) then 0 else r + 1) n)

-- One value more is the one in the slot behind the others.
items-suc :
    {A : Type 0} (size : ℕ) (buf : ℕ → A) (r n : ℕ)
    → r < size
    → n < size
    → items size buf r (suc n) ≡ items size buf r n ++ buf (wrap size (r + n)) ∷ []
items-suc size buf r zero h k = let e : wrap size (r + 0) ≡ r = ground arith in rw e refl
items-suc size buf r (suc n) h k =
    let r' : ℕ = if leb size (r + 1) then 0 else r + 1 in
    let e : wrap size (r' + n) ≡ wrap size (r + suc n) = ground arith in
    ap (λ es. buf r ∷ es)
      (items-suc size buf r' n (ground arith) (omega arith)
        ∙ ap (λ p. items size buf r' n ++ buf p ∷ []) e)

-- A slot behind the values may be written.
items-set :
    {A : Type 0} (size p : ℕ) (v : A) (buf : ℕ → A) (r n : ℕ)
    → r < size
    → n < size
    → ((k : ℕ) → k < n → wrap size (r + k) ≢ p)
    → items size (set p v buf) r n ≡ items size buf r n
items-set size p v buf r zero h k apart = refl
items-set size p v buf r (suc n) h k apart =
    let r' : ℕ = if leb size (r + 1) then 0 else r + 1 in
    let ne : (r == p) ≡ false = ==_ne r p (λ same. apart 0 (omega arith) (ground arith)) in
    rw ne (
      ap (λ es. buf r ∷ es)
        (items-set size p v buf r' n (ground arith) (omega arith)
          (λ j lt same. apart (suc j) (omega arith) (ground arith))))

pub count_bound : (size r w : ℕ) → r < size → w < size → count size r w < size
count_bound size r w h k = ground arith

pub count-write :
    (size r w : ℕ)
    → r < size
    → w < size
    → (if leb size (w + 1) then 0 else w + 1) ≢ r
    → count size r (if leb size (w + 1) then 0 else w + 1) ≡ suc (count size r w)
count-write size r w h k ne = ground arith

pub count-read :
    (size r w : ℕ)
    → r < size
    → w < size
    → r ≢ w
    → count size r w ≡ suc (count size (if leb size (r + 1) then 0 else r + 1) w)
count-read size r w h k ne = ground arith

-- The value written at the write pointer comes last.
pub items-write :
    {A : Type 0} (size : ℕ) (v : A) (buf : ℕ → A) (r w : ℕ)
    → r < size
    → w < size
    → items size (set w v buf) r (suc (count size r w))
      ≡ items size buf r (count size r w) ++ v ∷ []
items-write size v buf r w h k =
    let n : ℕ = count size r w in
    let bound = count_bound size r w h k in
    let at_w : wrap size (r + n) ≡ w = ground arith in
    let here : set w v buf w ≡ v = (let e : (w == w) ≡ true = ground arith in rw e refl) in
    items-suc size (set w v buf) r n h bound
    ∙ ap (λ p. items size (set w v buf) r n ++ set w v buf p ∷ []) at_w
    ∙ ap (λ u. items size (set w v buf) r n ++ u ∷ []) here
    ∙ ap (λ es. es ++ v ∷ [])
        (items-set size w v buf r n h bound (λ j lt same. absurd (ground arith)))
