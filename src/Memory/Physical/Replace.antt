-- ===== src/Memory/Physical/Replace.antt =====
-- The members of a list in which entries have come into the place of one.
use methylenix.Base.{ℕ, suc, ◌≢◌, sym, ap, ◌∙◌, List, [], ◌∷◌, ◌++◌, arith, ◌⊎◌, inl, inr}
use methylenix.Memory.Physical.{MemoryEntry, replace}
use methylenix.Memory.Physical.Areas.{Member, Between, Member-Between, replace_here, replace_there}

Member-append :
    (f : MemoryEntry) (es fs : List MemoryEntry) → Member f (es ++ fs) → Member f es ⊎ Member f fs
Member-append f [] fs m = inr m
Member-append f (e ∷ es) fs (inl here) = inl (inl here)
Member-append f (e ∷ es) fs (inr there) = elim (Member-append f es fs there) [
  | inl a ↦ inl (inr a)
  | inr b ↦ inr b
]

append-Member :
    (f : MemoryEntry) (es fs : List MemoryEntry) → Member f es ⊎ Member f fs → Member f (es ++ fs)
append-Member f [] fs (inl m) = absurd m
append-Member f [] fs (inr m) = m
append-Member f (e ∷ es) fs (inl (inl here)) = inl here
append-Member f (e ∷ es) fs (inl (inr there)) = inr (append-Member f es fs (inl there))
append-Member f (e ∷ es) fs (inr m) = inr (append-Member f es fs (inr m))

-- The members after entries `ps` have come into the place of `e`.
pub Member-replace :
    (lo hi : ℕ) (e f : MemoryEntry) (ps es : List MemoryEntry)
    → Between lo es hi
    → Member e es
    → Member f (replace e.start ps es)
    → Member f ps ⊎ (Member f es × (f.start ≢ e.start))
Member-replace lo hi e f ps [] h m k = absurd m
Member-replace lo hi e f ps (g ∷ gs) h (inl same) k =
    elim (Member-append f ps gs (rw (replace_here e g ps gs same) at k)) [
      | inl a ↦ inl a
      | inr b ↦
          let apart = Member-Between (suc g.end) hi f gs h.2 b in
          let first = ap (λ (g : MemoryEntry). g.start) same in inr (inr b, omega arith)
    ]
Member-replace lo hi e f ps (g ∷ gs) h (inr there) k =
    let apart = Member-Between (suc g.end) hi e gs h.2 there in
    elim (rw (replace_there lo hi e g ps gs h there) at k) [
      | inl here ↦ inr (inl here, ground (arith, ap (λ (g : MemoryEntry). g.start) here))
      | inr later ↦ elim (Member-replace (suc g.end) hi e f ps gs h.2 there later) [
        | inl a ↦ inl a
        | inr (a, b) ↦ inr (inr a, b)
      ]
    ]

pub replace-Member :
    (lo hi : ℕ) (e f : MemoryEntry) (ps es : List MemoryEntry)
    → Between lo es hi
    → Member e es
    → Member f ps ⊎ (Member f es × (f.start ≢ e.start))
    → Member f (replace e.start ps es)
replace-Member lo hi e f ps [] h m k = absurd m
replace-Member lo hi e f ps (g ∷ gs) h (inl same) k = rw (replace_here e g ps gs same) (
    append-Member f ps gs (elim k [
      | inl a ↦ inl a
      | inr (inl here, ne) ↦ absurd (ne (ap (λ (g : MemoryEntry). g.start) (sym here ∙ same)))
      | inr (inr b, ne) ↦ inr b
    ]))
replace-Member lo hi e f ps (g ∷ gs) h (inr there) k =
    rw (replace_there lo hi e g ps gs h there) (elim k [
      | inl a ↦ inr (replace-Member (suc g.end) hi e f ps gs h.2 there (inl a))
      | inr (inl here, ne) ↦ inl here
      | inr (inr b, ne) ↦ inr (replace-Member (suc g.end) hi e f ps gs h.2 there (inr (b, ne)))
    ])

-- An order is one number.
