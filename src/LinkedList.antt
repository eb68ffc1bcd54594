-- ===== src/LinkedList.antt =====
-- kernel/collections/ptr_linked_list.rs: the intrusive doubly linked list.
-- A node stands at an address of a store. Every `&mut` argument and every `NonNull` pointer is the
-- address of a node, so a read through a pointer always finds one.
pub mod Chain
pub mod Insert
pub mod Remove
pub mod Between
pub mod Iter
mod Tests
use methylenix.Base.{
  ℕ, Bool, false, Option, none, some, ◌==◌, if◌then◌else◌, is_none, is_some, Panics, ◌>>=◌, ◌>>◌,
  assert, sub_usize, zero, suc, List, [], ◌∷◌,
}

abbrev pub Ptr : Type 0
Ptr = ℕ

-- `PtrLinkedListNode`
pub record Node : Type 0 where
  pub prev : Option Ptr
  pub next : Option Ptr

abbrev pub node : Option Ptr → Option Ptr → Node
node p n = record { prev = p; next = n }

abbrev pub Store : Type 0
Store = Ptr → Node

abbrev pub write : Store → Ptr → Node → Store
write s p n q = if q == p then n else s q

abbrev pub set_prev : Store → Ptr → Option Ptr → Store
set_prev s p v = write s p (node v (s p).next)

abbrev pub set_next : Store → Ptr → Option Ptr → Store
set_next s p v = write s p (node (s p).prev v)

-- `PtrLinkedListNode::unset_prev_and_next`
unfoldable pub unset_prev_and_next : Store → Ptr → Store
unset_prev_and_next s p = write s p (node none none)

-- `if let Some(mut e) = o { e.as_mut().prev = v }`, and the same with `next`
abbrev pub set_prev_of : Store → Option Ptr → Option Ptr → Store
set_prev_of s none v = s
set_prev_of s (some p) v = set_prev s p v

abbrev pub set_next_of : Store → Option Ptr → Option Ptr → Store
set_next_of s none v = s
set_next_of s (some p) v = set_next s p v

-- `PtrLinkedListNode::insert_after`, where `p` is `self` and `e` is `next`
unfoldable pub node_insert_after : Store → Ptr → Ptr → Store
node_insert_after s p e =
    let old_next = (s p).next in
    let s1 = set_next s p (some e) in
    let s2 = set_prev s1 e (some p) in
    let s3 = set_next s2 e old_next in set_prev_of s3 (s3 e).next (some e)

-- `PtrLinkedListNode::insert_before`, where `p` is `self` and `e` is `prev`
unfoldable pub node_insert_before : Store → Ptr → Ptr → Store
node_insert_before s p e =
    let old_prev = (s p).prev in
    let s1 = set_prev s p (some e) in
    let s2 = set_next s1 e (some p) in
    let s3 = set_prev s2 e old_prev in set_next_of s3 (s3 e).prev (some e)

-- `PtrLinkedList`
pub record LinkedList : Type 0 where
  pub head : Option Ptr
  pub tail : Option Ptr

abbrev pub linked_list : Option Ptr → Option Ptr → LinkedList
linked_list h t = record { head = h; tail = t }

-- `PtrLinkedList::new`
abbrev pub new : LinkedList
new = linked_list none none

unfoldable pub insert_head : LinkedList → Ptr → Store → Panics (LinkedList × Store)
unfolding unset_prev_and_next
insert_head l e s = elim l.head [
  | none ↦ do assert (is_none l.tail); some (linked_list (some e) (some e), unset_prev_and_next s e)
  | some h ↦ do
    assert (is_none (s h).prev)
    let s1 = unset_prev_and_next s e
    let s2 = set_prev s1 h (some e)
    let s3 = set_next s2 e l.head
    assert (is_some (s3 h).prev)
    some (linked_list (s3 h).prev l.tail, s3)
]

unfoldable pub insert_tail : LinkedList → Ptr → Store → Panics (LinkedList × Store)
unfolding insert_head
insert_tail l e s = elim l.tail [
  | none ↦ do assert (is_none l.head); insert_head l e s
  | some t ↦ do
    assert (is_none (s t).next)
    let s1 = set_next s t (some e)
    let s2 = set_prev s1 e l.tail
    let new_tail = (s2 t).next
    let s3 = set_next s2 e none
    assert (is_some new_tail)
    some (linked_list l.head new_tail, s3)
]

-- `insert_after(list_entry, entry)`
unfoldable pub insert_after : LinkedList → Ptr → Ptr → Store → Panics (LinkedList × Store)
unfolding insert_tail unset_prev_and_next node_insert_after
insert_after l p e s =
    if is_none (s p).next
    then insert_tail l e s
    else some (l, node_insert_after (unset_prev_and_next s e) p e)

-- `insert_before(list_entry, entry)`
unfoldable pub insert_before : LinkedList → Ptr → Ptr → Store → Panics (LinkedList × Store)
unfolding insert_head unset_prev_and_next node_insert_before
insert_before l p e s =
    if is_none (s p).prev
    then insert_head l e s
    else some (l, node_insert_before (unset_prev_and_next s e) p e)

-- The branches of `remove`, by the links of `list_entry` at `p`. An `assert_eq!` on a pointer
-- compares addresses, and `unwrap` panics on `None`.
abbrev pub points_to : Option Ptr → Ptr → Bool
points_to none p = false
points_to (some q) p = q == p

unfoldable pub remove_links :
    LinkedList → Ptr → Option Ptr → Option Ptr → Store → Panics (LinkedList × Store)
remove_links l p none none s = do assert (points_to l.head p); some (new, s)
remove_links l p none (some n) s = do
  assert (points_to l.head p)
  some (linked_list (some n) l.tail, set_prev s n none)
remove_links l p (some q) none s = do
  assert (points_to l.tail p)
  some (linked_list l.head (some q), set_next s q none)
remove_links l p (some q) (some n) s = some (l, set_prev (set_next s q (some n)) n (some q))

unfoldable pub remove : LinkedList → Ptr → Store → Panics (LinkedList × Store)
unfolding remove_links unset_prev_and_next
remove l p s = do
  assert (is_some l.head)
  (l', s') ← remove_links l p (s p).prev (s p).next s
  some (l', unset_prev_and_next s' p)

-- An entry `T` is found at its node's address less the node's offset in it.
unfoldable pub get_first_entry : LinkedList → ℕ → Option Ptr
get_first_entry l offset = elim l.head [ none ↦ none | some h ↦ some (sub_usize h offset) ]

unfoldable pub get_last_entry : LinkedList → ℕ → Option Ptr
get_last_entry l offset = elim l.tail [ none ↦ none | some t ↦ some (sub_usize t offset) ]

pub is_empty : LinkedList → Bool
is_empty l = is_none l.head

-- `take_first_entry`: the entry, if there is one, and the list without it
unfoldable pub take_first_entry : LinkedList → ℕ → Store → Panics (Option Ptr × LinkedList × Store)
unfolding get_first_entry
take_first_entry l offset s = elim l.head [
  | none ↦ some (none, l, s)
  | some h ↦ do
    result ← get_first_entry l offset
    (l', s') ← remove l h s
    some (some result, l', s')
]

-- What a loop over `iter(offset)` visits: `next` is the iterator's field. The fuel bounds the
-- rounds; `none` means that it ran out.
unfoldable pub iter_from : ℕ → ℕ → Option Ptr → Store → Option (List Ptr)
iter_from fuel offset none s = some []
iter_from zero offset (some n) s = none
iter_from (suc fuel) offset (some n) s = elim (iter_from fuel offset (s n).next s) [
  | none ↦ none
  | some rest ↦ some (sub_usize n offset ∷ rest)
]
