-- ===== src/LinkedItem/Represents/Remove.antt =====
-- `LinkedList::remove` and the list that its storage stands for.
use archer_in_zoo.Prelude.{
  ℕ, ◌≡◌, true, false, Option, none, some, List, arith, ◌==◌, ◌=?◌, if◌then◌else◌, ◌∙◌, head?,
  last_or, contains, erase, Distinct-erase,
}
use archer_in_zoo.LinkedItem.{LinkedItem, item, Storage, put, read, write, bypass, remove}
use archer_in_zoo.LinkedItem.Represents.{item_of, Represents}
use archer_in_zoo.LinkedItem.Represents.Chain.{
  item_of-none, item_of-some, item_of-next, item_of-prev, item_of-next_ne, item_of-prev_ne,
  item_of-links_ne, head?-erase, last_or-erase, item_of-erase,
}

remove-some :
    (s : Storage) (key v : ℕ) (i : LinkedItem)
    → s key (some v) ≡ some i
    → remove key v s ≡ bypass key i (put key (some v) none s)
unfolding remove
remove-some s key v i e = rw (e, remove)

-- What `bypass` writes at a value, where the two links lead to different places.
bypass-entry :
    (s : Storage) (key y : ℕ) (i : LinkedItem)
    → bypass key i s key (some y) ≡ (
        if i.next =? some y
        then (if i.prev =? some y
            then some (item i.prev i.next)
            else some (item i.prev (read key (some y) s).next))
        else if i.prev =? some y
        then some (item (read key (some y) s).prev i.next)
        else s key (some y))
unfolding bypass read write
bypass-entry s key y i = ground arith

bypass-head :
    (s : Storage) (key : ℕ) (i : LinkedItem)
    → read key none (bypass key i s)
      ≡ item
          (if i.next =? none then i.prev else (read key none s).prev)
          (if i.prev =? none then i.next else (read key none s).next)
unfolding bypass read write
bypass-head s key i = ground arith

-- The entries of the list after `v` has been unlinked.
entries_erase :
    (s : Storage) (key v : ℕ) (xs : List ℕ) (i : LinkedItem)
    → Represents s key xs
    → item_of none xs v ≡ some i
    → (y : ℕ) → bypass key i (put key (some v) none s) key (some y) ≡ item_of none (erase v xs) y
unfolding read
entries_erase s key v xs i r e y = ground (
  arith,
  bypass-entry (put key (some v) none s) key y i,
  r.entries y,
  item_of-erase none xs v y i r.distinct tt e,
  item_of-next_ne v i none xs r.distinct e,
  item_of-prev_ne v i none xs r.distinct tt e,
  item_of-links_ne v i none xs y r.distinct tt e,
  item_of-some none xs y,
  item_of-next v i none xs y e,
  item_of-prev v i none xs y e,
)

head_erase :
    (s : Storage) (key v : ℕ) (xs : List ℕ) (i : LinkedItem)
    → Represents s key xs
    → item_of none xs v ≡ some i
    → read key none (bypass key i (put key (some v) none s))
      ≡ item (last_or none (erase v xs)) (head? (erase v xs))
unfolding read
head_erase s key v xs i r e = ground (
  arith,
  bypass-head (put key (some v) none s) key i,
  r.head,
  head?-erase v i xs e,
  last_or-erase v i none xs e,
)

-- Where the entries of a key represent a list, removing a value of the list takes it out and keeps
-- the order of the others.
pub remove-Represents :
    (s : Storage) (key v : ℕ) (xs : List ℕ)
    → Represents s key xs
    → contains v xs ≡ true
    → Represents (remove key v s) key (erase v xs)
remove-Represents s key v xs r h =
    let (i, e) = item_of-some none xs v h in
    rw (remove-some s key v i (r.entries v ∙ e)) (record {
      distinct = Distinct-erase v xs r.distinct;
      head = head_erase s key v xs i r e;
      entries = entries_erase s key v xs i r e;
    })

-- Removing a value that the list does not hold changes nothing.
pub remove_missing :
    (s : Storage) (key v : ℕ) (xs : List ℕ)
    → Represents s key xs
    → contains v xs ≡ false
    → remove key v s ≡ s
unfolding remove
remove_missing s key v xs r h = rw (r.entries v ∙ item_of-none none xs v h, remove)

-- Removing under one key leaves the lists of all other keys alone.
pub remove_other :
    (s : Storage) (key v k : ℕ) (q : Option ℕ) → (k == key) ≡ false → remove key v s k q ≡ s k q
unfolding remove bypass read write
remove_other s key v k q n = ground arith
