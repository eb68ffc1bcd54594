-- ===== src/Memory/Physical/FreeList.antt =====
-- The free lists hold the entries of the chain, each in the list of its order.
use methylenix.Base.{
  ℕ, suc, ◌-◌, ◌≡◌, ◌≢◌, refl, sym, ap, ◌∙◌, Option, some, List, [], ◌∷◌, leb, ◌==◌, if◌then◌else◌,
  arith, ◌⊎◌, inl, inr, Bool-cases, ==_ne, ==_iff,
}
use methylenix.Memory.Physical.{
  MemoryEntry, order_of, without, unchain, insert_by_size, chain_new, rechain, replace,
}
use methylenix.Memory.Physical.Areas.{Member, Between, Member-Between}
use methylenix.Memory.Physical.Replace.{Member-replace, replace-Member}

Member-without :
    (start : ℕ) (f : MemoryEntry) (es : List MemoryEntry)
    → Member f (without start es)
    → Member f es × (f.start ≢ start)
unfolding without
Member-without start f [] m = absurd m
Member-without start f (e ∷ es) m = elim (Bool-cases (e.start == start)) [
  | inl same ↦ let (a, b) = Member-without start f es (rw same at m) in (inr a, b)
  | inr other ↦ elim (rw other at m) [
    | inl here ↦ (inl here, ground (arith, ap (λ (g : MemoryEntry). g.start) here))
    | inr there ↦ let (a, b) = Member-without start f es there in (inr a, b)
  ]
]

without-Member :
    (start : ℕ) (f : MemoryEntry) (es : List MemoryEntry)
    → Member f es
    → f.start ≢ start
    → Member f (without start es)
unfolding without
without-Member start f [] m ne = absurd m
without-Member start f (e ∷ es) (inl here) ne =
    rw (==_ne e.start start (λ same. ne (ap (λ (g : MemoryEntry). g.start) (sym here) ∙ same)))
      (inl here)
without-Member start f (e ∷ es) (inr there) ne = elim (Bool-cases (e.start == start)) [
  | inl same ↦ rw same (without-Member start f es there ne)
  | inr other ↦ rw other (inr (without-Member start f es there ne))
]

Member-insert_by_size :
    (e f : MemoryEntry) (es : List MemoryEntry)
    → Member f (insert_by_size e es)
    → (f ≡ e) ⊎ Member f es
unfolding insert_by_size
Member-insert_by_size e f [] (inl here) = inl (sym here)
Member-insert_by_size e f [] (inr there) = absurd there
Member-insert_by_size e f (g ∷ gs) m = elim (Bool-cases (leb (e.end - e.start) (g.end - g.start))) [
  | inl small ↦ elim (rw small at m) [ inl here ↦ inl (sym here) | inr there ↦ inr there ]
  | inr large ↦ elim (rw large at m) [
    | inl here ↦ inr (inl here)
    | inr there ↦ elim (Member-insert_by_size e f gs there) [
      | inl same ↦ inl same
      | inr old ↦ inr (inr old)
    ]
  ]
]

insert_by_size-Member :
    (e f : MemoryEntry) (es : List MemoryEntry)
    → (f ≡ e) ⊎ Member f es
    → Member f (insert_by_size e es)
unfolding insert_by_size
insert_by_size-Member e f [] (inl same) = inl (sym same)
insert_by_size-Member e f [] (inr m) = absurd m
insert_by_size-Member e f (g ∷ gs) m = elim (Bool-cases (leb (e.end - e.start) (g.end - g.start))) [
  | inl small ↦ rw small (elim m [ inl same ↦ inl (sym same) | inr old ↦ inr old ])
  | inr large ↦ rw large (elim m [
    | inl same ↦ inr (insert_by_size-Member e f gs (inl same))
    | inr (inl here) ↦ inl here
    | inr (inr there) ↦ inr (insert_by_size-Member e f gs (inr there))
  ])
]

-- Exactly the entries of the chain are listed, in the lists of their orders.
pub record IsListed (chain : List MemoryEntry) (lists : ℕ → List MemoryEntry) : Type 0 where
  pub sound :
      (k : ℕ) (f : MemoryEntry) → Member f (lists k) → Member f chain × (order_of f ≡ some k)
  pub complete :
      (k : ℕ) (f : MemoryEntry) → Member f chain → order_of f ≡ some k → Member f (lists k)

pub unchain_run :
    (e : MemoryEntry) (lists : ℕ → List MemoryEntry) (k : ℕ)
    → order_of e ≡ some k
    → unchain e lists ≡ some (λ j. if j == k then without e.start (lists j) else lists j)
unfolding unchain
unchain_run e lists k o = rw o refl

pub chain_new_run :
    (e : MemoryEntry) (lists : ℕ → List MemoryEntry) (k : ℕ)
    → order_of e ≡ some k
    → chain_new e lists ≡ some (λ j. if j == k then insert_by_size e (lists j) else lists j)
unfolding chain_new
chain_new_run e lists k o = rw o refl

order_unique : {o : Option ℕ} {j k : ℕ} → o ≡ some j → o ≡ some k → j ≡ k
order_unique p q = cc

-- The areas of a chain start at different addresses.
same_start :
    (lo hi : ℕ) (e f : MemoryEntry) (es : List MemoryEntry)
    → Between lo es hi
    → Member e es
    → Member f es
    → f.start ≡ e.start
    → f ≡ e
same_start lo hi e f [] h m n same = absurd m
same_start lo hi e f (g ∷ gs) h (inl a) (inl b) same = sym b ∙ a
same_start lo hi e f (g ∷ gs) h (inl a) (inr n) same =
    let apart = Member-Between (suc g.end) hi f gs h.2 n in
    let first = ap (λ (g : MemoryEntry). g.start) a in absurd (omega arith)
same_start lo hi e f (g ∷ gs) h (inr m) (inl b) same =
    let apart = Member-Between (suc g.end) hi e gs h.2 m in
    let first = ap (λ (g : MemoryEntry). g.start) b in absurd (omega arith)
same_start lo hi e f (g ∷ gs) h (inr m) (inr n) same = same_start (suc g.end) hi e f gs h.2 m n same

abbrev pub taken_out : MemoryEntry → ℕ → (ℕ → List MemoryEntry) → ℕ → List MemoryEntry
taken_out e k lists j = if j == k then without e.start (lists j) else lists j

abbrev pub put_in : MemoryEntry → ℕ → (ℕ → List MemoryEntry) → ℕ → List MemoryEntry
put_in e k lists j = if j == k then insert_by_size e (lists j) else lists j

module _ (lo hi : ℕ) (e : MemoryEntry) (chain : List MemoryEntry) (h : Between lo chain hi)
    (m : Member e chain) where
  taken_out_sound :
      (lists : ℕ → List MemoryEntry) (k j : ℕ) (f : MemoryEntry)
      → IsListed chain lists
      → order_of e ≡ some k
      → Member f (taken_out e k lists j)
      → (Member f chain × (f.start ≢ e.start)) × (order_of f ≡ some j)
  taken_out_sound lists k j f l o n = elim (Bool-cases (j == k)) [
    | inl here ↦
        let (a, b) = Member-without e.start f (lists j) (rw here at n) in
        let (c, d) = l.sound j f a in ((c, b), d)
    | inr other ↦
        let (c, d) = l.sound j f (rw other at n) in
        let apart : f.start ≢ e.start = λ same.
          let one : f ≡ e = same_start lo hi e f chain h m c same in
          ground (arith, order_unique d (ap order_of one ∙ o)) in
        ((c, apart), d)
  ]

  taken_out_complete :
      (lists : ℕ → List MemoryEntry) (k j : ℕ) (f : MemoryEntry)
      → IsListed chain lists
      → Member f chain
      → f.start ≢ e.start
      → order_of f ≡ some j
      → Member f (taken_out e k lists j)
  taken_out_complete lists k j f l n ne o = elim (Bool-cases (j == k)) [
    | inl here ↦ rw here (without-Member e.start f (lists j) (l.complete j f n o) ne)
    | inr other ↦ rw other (l.complete j f n o)
  ]

  -- The state between `unchain` and the entries that come into the place of `e`.
  pub IsListed-unchain :
      (lists : ℕ → List MemoryEntry) (k : ℕ)
      → IsListed chain lists
      → order_of e ≡ some k
      → IsListed (replace e.start [] chain) (taken_out e k lists)
  IsListed-unchain lists k l o = record {
    sound = λ j f n.
        let (a, b) = taken_out_sound lists k j f l o n in
        (replace-Member lo hi e f [] chain h m (inr a), b);
    complete = λ j f n o'. elim (Member-replace lo hi e f [] chain h m n) [
      | inl empty ↦ absurd empty
      | inr (a, b) ↦ taken_out_complete lists k j f l a b o'
    ];
  }

-- An entry comes into the chain, and into the list of its order.
pub IsListed-chain_new :
    (e : MemoryEntry) (chain chain' : List MemoryEntry) (lists : ℕ → List MemoryEntry) (k : ℕ)
    → IsListed chain lists
    → order_of e ≡ some k
    → ((f : MemoryEntry) → Member f chain' → (f ≡ e) ⊎ Member f chain)
    → ((f : MemoryEntry) → (f ≡ e) ⊎ Member f chain → Member f chain')
    → IsListed chain' (put_in e k lists)
IsListed-chain_new e chain chain' lists k l o down up = record {
  sound = λ j f n. elim (Bool-cases (j == k)) [
    | inl here ↦ elim (Member-insert_by_size e f (lists j) (rw here at n)) [
      | inl same ↦ (up f (inl same), ap order_of same ∙ o ∙ ap some (sym ((==_iff j k).0 here)))
      | inr old ↦ let (a, b) = l.sound j f old in (up f (inr a), b)
    ]
    | inr other ↦ let (a, b) = l.sound j f (rw other at n) in (up f (inr a), b)
  ];
  complete = λ j f n o'. elim (Bool-cases (j == k)) [
    | inl here ↦ rw here (
        insert_by_size-Member e f (lists j)
          (elim (down f n) [ inl same ↦ inl same | inr old ↦ inr (l.complete j f old o') ]))
    | inr other ↦ rw other (elim (down f n) [
      | inl same ↦ absurd (ground (arith, order_unique o' (ap order_of same ∙ o)))
      | inr old ↦ l.complete j f old o'
    ])
  ];
}

-- One more entry comes into the place of `e`.
pub IsListed-replace :
    (lo hi : ℕ) (e p : MemoryEntry) (ps ps' chain : List MemoryEntry) (lists : ℕ → List MemoryEntry)
    (k : ℕ)
    → Between lo chain hi
    → Member e chain
    → order_of p ≡ some k
    → ((f : MemoryEntry) → Member f ps' → (f ≡ p) ⊎ Member f ps)
    → ((f : MemoryEntry) → (f ≡ p) ⊎ Member f ps → Member f ps')
    → IsListed (replace e.start ps chain) lists
    → IsListed (replace e.start ps' chain) (put_in p k lists)
IsListed-replace lo hi e p ps ps' chain lists k h m o down up l =
    IsListed-chain_new p (replace e.start ps chain) (replace e.start ps' chain) lists k l o
      (λ f n. elim (Member-replace lo hi e f ps' chain h m n) [
        | inl new ↦ elim (down f new) [
          | inl same ↦ inl same
          | inr old ↦ inr (replace-Member lo hi e f ps chain h m (inl old))
        ]
        | inr old ↦ inr (replace-Member lo hi e f ps chain h m (inr old))
      ])
      (λ f n. elim n [
        | inl same ↦ replace-Member lo hi e f ps' chain h m (inl (up f (inl same)))
        | inr old ↦ elim (Member-replace lo hi e f ps chain h m old) [
          | inl new ↦ replace-Member lo hi e f ps' chain h m (inl (up f (inr new)))
          | inr there ↦ replace-Member lo hi e f ps' chain h m (inr there)
        ]
      ])

pub rechain_run :
    (e e' : MemoryEntry) (lists : ℕ → List MemoryEntry) (k k' : ℕ)
    → order_of e ≡ some k
    → order_of e' ≡ some k'
    → rechain e e' lists ≡ some (put_in e' k' (taken_out e k lists))
unfolding rechain
rechain_run e e' lists k k' o o' =
    rw (unchain_run e lists k o) (chain_new_run e' (taken_out e k lists) k' o')
