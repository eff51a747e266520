-- ===== src/LinkedItem.antt =====
-- substrate-kitties/runtime/src/linked_item.rs
pub mod Represents
use archer_in_zoo.Prelude.{ℕ, Option, none, some, ◌&&◌, ◌==◌, ◌=?◌, if◌then◌else◌, get_or}

pub record LinkedItem : Type 0 where
  pub prev : Option ℕ
  pub next : Option ℕ

abbrev pub item : Option ℕ → Option ℕ → LinkedItem
item p n = record { prev = p; next = n }

-- `StorageMap<(Key, Option<Value>), LinkedItem<Value>>`
abbrev pub Storage : Type 0
Storage = ℕ → Option ℕ → Option LinkedItem

-- One entry of the map, written (`some`) or taken away (`none`).
abbrev pub put : ℕ → Option ℕ → Option LinkedItem → Storage → Storage
put key value i s k v = if (k == key) && (v =? value) then i else s k v

unfoldable pub read : ℕ → Option ℕ → Storage → LinkedItem
read key value s = get_or (s key value) (item none none)

unfoldable pub read_head : ℕ → Storage → LinkedItem
unfolding read
read_head key s = read key none s

unfoldable pub write : ℕ → Option ℕ → LinkedItem → Storage → Storage
write key value i s = put key value (some i) s

unfoldable pub write_head : ℕ → LinkedItem → Storage → Storage
unfolding write
write_head key i s = write key none i s

unfoldable pub append : ℕ → ℕ → Storage → Storage
unfolding read_head write_head read write
append key value s =
    let head = read_head key s in
    let s1 = write_head key (item (some value) head.next) s in
    let prev = read key head.prev s1 in
    let s2 = write key head.prev (item prev.prev (some value)) s1 in
    write key (some value) (item head.prev none) s2

-- The links round the entry `i` that was taken.
unfoldable pub bypass : ℕ → LinkedItem → Storage → Storage
unfolding read write
bypass key i s =
    let prev = read key i.prev s in
    let s1 = write key i.prev (item prev.prev i.next) s in
    let next = read key i.next s1 in write key i.next (item i.prev next.next) s1

unfoldable pub remove : ℕ → ℕ → Storage → Storage
unfolding bypass
remove key value s = elim (s key (some value)) [
  | none ↦ s
  | some i ↦ bypass key i (put key (some value) none s)
]
