-- ===== src/LinkedList.antt =====
-- Doubly linked lists: hmlib/src/hm_list.c. A pointer is an address, and 0 is NULL; memory maps an
-- address to the link that is there, and `none` is a use of NULL or of freed memory.
pub mod Chain
pub mod Cut
pub mod Ends
pub mod Fuel
pub mod Adds
pub mod Removes
pub mod Walks
pub mod Erase
pub mod Concat
mod Tests
use hm_platform.Base.{
  ℕ, zero, suc, ◌+◌, List, [], ◌∷◌, Option, none, some, ◌==◌, if◌then◌else◌, ◌>>=◌, Bool, true,
  false, not,
}

-- `struct _JList`; `item` is its data.
pub record Link : Type 0 where
  pub item : ℕ
  pub next : ℕ
  pub prev : ℕ

-- The addresses from `fresh` on were never given out.
pub record Heap : Type 0 where
  pub cell : ℕ → Option Link
  pub fresh : ℕ

abbrev pub null : ℕ
null = 0

abbrev pub update : (ℕ → Option Link) → ℕ → Option Link → ℕ → Option Link
update f p v a = if a == p then v else f a

pub load : Heap → ℕ → Option Link
load h p = if p == null then none else h.cell p

pub store : Heap → ℕ → Link → Option Heap
store h p l = do old ← load h p; some (record h { cell = update h.cell p (some l) })

pub set_next : Heap → ℕ → ℕ → Option Heap
set_next h p q = do l ← load h p; store h p (record l { next = q })

pub set_prev : Heap → ℕ → ℕ → Option Heap
set_prev h p q = do l ← load h p; store h p (record l { prev = q })

-- `hm_list_alloc`, and the writes of all fields that follow each call of it.
pub alloc_link : Heap → Link → ℕ × Heap
alloc_link h l = (h.fresh, record { cell = update h.cell h.fresh (some l); fresh = h.fresh + 1 })

pub list_free_1 : Heap → ℕ → Option Heap
list_free_1 h p =
    if p == null then some h else (do l ← load h p; some (record h { cell = update h.cell p none }))

-- What is written unless a pointer is NULL.
abbrev pub unless_null : ℕ → Heap → Option Heap → Option Heap
unless_null p h m = if p == null then some h else m

pub list_add : Heap → ℕ → ℕ → Option (ℕ × Heap)
list_add h list item =
    let made = alloc_link h (record { item = item; next = list; prev = null }) in
    do h1 ← unless_null list made.1 (set_prev made.1 list made.0); some (made.0, h1)

-- The walks run on fuel: no list has more links than addresses were given out.
pub last_from : ℕ → Heap → ℕ → Option ℕ
last_from zero h p = none
last_from (suc fuel) h p = do
  l ← load h p
  elim (l.next == null) [ true ↦ some p | false ↦ last_from fuel h l.next ]

pub list_last : Heap → ℕ → Option ℕ
list_last h list = if list == null then some null else last_from (suc h.fresh) h list

pub first_from : ℕ → Heap → ℕ → Option ℕ
first_from zero h p = none
first_from (suc fuel) h p = do
  l ← load h p
  elim (l.prev == null) [ true ↦ some p | false ↦ first_from fuel h l.prev ]

pub list_first : Heap → ℕ → Option ℕ
list_first h list = if list == null then some null else first_from (suc h.fresh) h list

pub add_behind : Heap → ℕ → ℕ → Option (ℕ × Heap)
add_behind h list item = do
  last ← list_last h list
  h1 ← set_next (alloc_link h (record { item = item; next = null; prev = last })).1 last h.fresh
  some (list, h1)

pub list_add_tail : Heap → ℕ → ℕ → Option (ℕ × Heap)
list_add_tail h list item =
    if list == null
    then some (alloc_link h (record { item = item; next = null; prev = null }))
    else add_behind h list item

pub find_from : ℕ → (ℕ → Bool) → Heap → ℕ → Option ℕ
find_from zero found h p = none
find_from (suc fuel) found h p = elim (p == null) [
  | true ↦ some null
  | false ↦ do
    l ← load h p
    elim (found l.item) [ true ↦ some p | false ↦ find_from fuel found h l.next ]
]

pub list_find : Heap → ℕ → ℕ → Option ℕ
list_find h list item = find_from (suc h.fresh) (λ x. x == item) h list

-- `func` returns 0 on the link that is looked for.
pub list_find_custom : Heap → ℕ → (ℕ → ℕ) → Option ℕ
list_find_custom h list func = find_from (suc h.fresh) (λ x. func x == 0) h list

-- The neighbours of a link point past it; `list->next` is read before the link is cleared.
pub bypass : Heap → Link → Option Heap
bypass h l = do
  h1 ← unless_null l.next h (set_prev h l.next l.prev)
  unless_null l.prev h1 (set_next h1 l.prev l.next)

pub list_remove_link : Heap → ℕ → ℕ → Option (ℕ × Heap)
list_remove_link h list link = if link == null then some (list, h) else (do
  l ← load h link
  h1 ← bypass h l
  l1 ← load h1 link
  h2 ← store h1 link (record l1 { next = null; prev = null })
  some (if link == list then l1.next else list, h2))

pub list_delete_link : Heap → ℕ → ℕ → Option (ℕ × Heap)
list_delete_link h list link = do
  r ← list_remove_link h list link
  h1 ← list_free_1 r.1 link
  some (r.0, h1)

-- `hm_list_remove`: the link found is the one whose neighbours are joined, the left one first.
pub join_left : Heap → Link → Option Heap
join_left h l = do
  h1 ← unless_null l.prev h (set_next h l.prev l.next)
  unless_null l.next h1 (set_prev h1 l.next l.prev)

pub remove_found : Heap → ℕ → ℕ → Option (ℕ × Heap)
remove_found h head p = do
  l ← load h p
  h1 ← join_left h l
  l1 ← load h1 p
  h2 ← list_free_1 h1 p
  some (if head == p then l1.next else head, h2)

pub list_remove : Heap → ℕ → ℕ → Option (ℕ × Heap)
list_remove h list item = do
  p ← list_find h list item
  if p == null then some (list, h) else remove_found h list p

-- `hm_list_remove_all`
pub remove_all_from : ℕ → Heap → ℕ → ℕ → ℕ → Option (ℕ × Heap)
remove_all_from zero h head p item = none
remove_all_from (suc fuel) h head p item = elim (p == null) [
  | true ↦ some (head, h)
  | false ↦ do
    l ← load h p
    elim (l.item == item) [
      | false ↦ remove_all_from fuel h head l.next item
      | true ↦ do
        h1 ← join_left h l
        h2 ← list_free_1 h1 p
        remove_all_from fuel h2 (if l.prev == null then l.next else head) l.next item
    ]
]

pub list_remove_all : Heap → ℕ → ℕ → Option (ℕ × Heap)
list_remove_all h list item = remove_all_from (suc h.fresh) h list list item

pub list_concat : Heap → ℕ → ℕ → Option (ℕ × Heap)
list_concat h list1 list2 = if list2 == null then some (list1, h) else (do
  last ← list_last h list1
  h1 ← unless_null last h (set_next h last list2)
  h2 ← set_prev h1 list2 last
  some (if last == null then list2 else list1, h2))

-- `hm_list_free`
pub free_from : ℕ → Heap → ℕ → Option Heap
free_from zero h p = none
free_from (suc fuel) h p = elim (p == null) [
  | true ↦ some h
  | false ↦ do l ← load h p; h1 ← list_free_1 h p; free_from fuel h1 l.next
]

pub list_free : Heap → ℕ → Option Heap
list_free h list = free_from (suc h.fresh) h list
