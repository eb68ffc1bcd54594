-- ===== src/Paging/Fade.antt =====
-- Entries that fade: what the processor finds after entries were made absent.
use mathlib.Core.Path.{subst}
use methylenix.Base.{
  ℕ, zero, suc, ◌+◌, ◌*◌, ◌≡◌, sym, ap, ◌∙◌, ◌⊎◌, inl, inr, true, false, Bool-cases, Option, none,
  some, arith, ◌==◌,
}
use methylenix.Paging.Entry.{Entry}
use methylenix.Paging.State.{Memory, update, physical_address_to_direct_map}
use methylenix.Paging.Walk.{index, ends, child, chosen, walk}
use methylenix.Paging.Tree.{chosen_below, chosen_absent}
use methylenix.Paging.Tree.Enter.{not_both}
use methylenix.Paging.Lookup.{OnPath}

-- An entry as it was, or no longer present; it keeps its address.
abbrev pub Fades : Entry → Entry → Type 0
Fades e e' =
    (e' ≡ e)
    ⊎ ((e'.present ≡ false)
        × (e'.address ≡ e.address)
        × (e'.address_set ≡ true → e.address_set ≡ true))

abbrev pub AllFade : Memory → Memory → Type 0
AllFade mem mem' = (x : ℕ) → Fades (mem x) (mem' x)

pub child-Fades : (e e' : Entry) → Fades e e' → child e' ≡ child e
child-Fades e e' (inl same) = ap child same
child-Fades e e' (inr (absent, address, set)) = ap physical_address_to_direct_map address

pub present_Fades : (e e' : Entry) → Fades e e' → e'.present ≡ true → e' ≡ e
present_Fades e e' (inl same) h = same
present_Fades e e' (inr (absent, address, set)) h = absurd (not_both h absent)

pub set_Fades : (e e' : Entry) → Fades e e' → e'.address_set ≡ true → e.address_set ≡ true
set_Fades e e' (inl same) h = ap (λ (x : Entry). x.address_set) (sym same) ∙ h
set_Fades e e' (inr (absent, address, set)) h = set h

-- A change that makes an entry absent and keeps its address.
abbrev pub IsFading : (Entry → Entry) → Type 0
IsFading f =
    (e : Entry)
    → ((f e).present ≡ false)
      × ((f e).address ≡ e.address)
      × ((f e).address_set ≡ true → e.address_set ≡ true)

address_Fades : (e e' : Entry) → Fades e e' → e'.address ≡ e.address
address_Fades e e' (inl same) = ap (λ (x : Entry). x.address) same
address_Fades e e' (inr (absent, address, set)) = address

pub AllFade-update :
    (mem mem' : Memory) (a : ℕ) (f : Entry → Entry)
    → IsFading f
    → AllFade mem mem'
    → AllFade mem (update mem' a (f (mem' a)))
AllFade-update mem mem' a f fading h x = elim (Bool-cases (x == a)) [
  | inl here ↦
      let (absent, address, set) = fading (mem' a) in
      let place : a ≡ x = ground arith in
      rw here (
        subst (λ y. Fades (mem y) (f (mem' a))) place
          (inr (absent, address ∙ address_Fades _ _ (h a), λ on. set_Fades _ _ (h a) (set on))))
  | inr other ↦ rw other (h x)
]

abbrev from_entry : ℕ → Entry → Option (ℕ × Entry) → Option (ℕ × Entry)
from_entry k e below = chosen e.present (ends k e) (some (k, e)) below

-- Where an entry on the way is absent, it finds nothing.
pub walk_gone :
    (n k : ℕ) (mem mem' : Memory) (t va a : ℕ)
    → AllFade mem mem'
    → OnPath n k mem t va a
    → (mem' a).present ≡ false
    → walk k mem' t va ≡ none
unfolding walk
walk_gone n zero mem mem' t va a h (level, on) absent =
    chosen_absent _ _ _ (ap (λ x. (mem' x).present) on ∙ absent)
walk_gone n (suc k) mem mem' t va a h (inl (level, on)) absent =
    chosen_absent _ _ _ (ap (λ x. (mem' x).present) on ∙ absent)
walk_gone n (suc k) mem mem' t va a h (inr (present, goes, on)) absent =
    let e = mem (t + 8 * index (suc k) va) in
    elim (h (t + 8 * index (suc k) va)) [
      | inr (gone, kept, set) ↦ chosen_absent _ _ _ gone
      | inl same ↦
          ap (λ x. from_entry (suc k) x (walk k mem' (child x) va)) same
          ∙ chosen_below (some (suc k, e)) present goes
          ∙ walk_gone n k mem mem' (child e) va a h on absent
    ]
