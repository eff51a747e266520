-- ===== src/Kitties.antt =====
-- substrate-kitties/runtime/src/kitties.rs
pub mod Registry
pub mod Refinement
pub mod Calls
pub mod History
pub mod Dna
pub mod Items
pub mod Moves
pub mod Tests
use Prim.Native.Nat.{bit_and, bit_or}
use archer_in_zoo.Prelude.{
  ℕ, zero, suc, ◌+◌, ◌-◌, ◌%◌, ◌^◌, Bool, Option, none, some, List, [], ◌∷◌, ◌++◌, ◌==◌, ◌=?◌,
  if◌then◌else◌, is_some, get_or, update, not, get_elem?, set, replicate,
}
use archer_in_zoo.Outcome.{
  ◌>>=◌, ◌>>◌, ok, err, Action, pure, gets, or_raise, modify, ensure, bad_origin,
  kitties_count_overflow, only_owner_can_transfer, invalid_kitty_id_1, invalid_kitty_id_2,
  needs_different_parent, not_owner_of_kitty_1, not_owner_of_kitty_2,
}
use archer_in_zoo.System.{System, Block, Hash}
use archer_in_zoo.LinkedItem.{Storage, append, remove}

-- `[u8; 16]`
pub record Kitty : Type 0 where
  pub dna : List ℕ

abbrev pub kitty : List ℕ → Kitty
kitty d = record { dna = d }

pub data Event : Type 0 where
  created : (owner kitty_id : ℕ) → Event
  transferred : (from to kitty_id : ℕ) → Event

pub record State : Type 0 where
  pub kitties : ℕ → Option Kitty
  pub kitties_count : ℕ
  pub owned_kitties : Storage
  pub kitty_owners : ℕ → Option ℕ
  pub events : List Event

-- `KittyIndex` is `u32`.
abbrev pub kitty_index_max : ℕ
kitty_index_max = 2 ^ 32 - 1

unfoldable pub deposit_event : Event → State → State
deposit_event e st = record st { events = st.events ++ e ∷ [] }

-- `!selector` on a byte is `255 - selector`.
unfoldable pub combine_dna : (dna1 dna2 selector : ℕ) → ℕ
combine_dna dna1 dna2 selector = bit_or (bit_and selector dna1) (bit_and (255 - selector) dna2)

-- The element of an array; the arrays have 16 elements and the index is below 16.
abbrev pub at : List ℕ → ℕ → ℕ
at xs i = get_or (get_elem? xs i) 0

-- `for i in 0..16`, with the rounds left and the index.
unfoldable pub combine_loop : (rounds i : ℕ) → (dna1 dna2 selector new_dna : List ℕ) → List ℕ
unfolding combine_dna
combine_loop zero i dna1 dna2 selector new_dna = new_dna
combine_loop (suc rounds) i dna1 dna2 selector new_dna =
    combine_loop rounds (i + 1) dna1 dna2 selector
      (set new_dna i (combine_dna (at dna1 i) (at dna2 i) (at selector i)))

unfoldable pub child_dna : (dna1 dna2 selector : List ℕ) → List ℕ
child_dna dna1 dna2 selector = combine_loop 16 0 dna1 dna2 selector (replicate 16 0)

unfoldable pub random_value : Hash → Block → ℕ → List ℕ
random_value hash b sender = hash b.random_seed sender b.extrinsic_index b.block_number

unfoldable pub next_kitty_id : Action State ℕ
next_kitty_id st =
    if st.kitties_count == kitty_index_max
    then (err kitties_count_overflow, st)
    else (ok st.kitties_count, st)

unfoldable pub insert_owned_kitty : (owner kitty_id : ℕ) → State → State
insert_owned_kitty owner kitty_id st = record st {
  owned_kitties = append owner kitty_id st.owned_kitties;
}

unfoldable pub insert_kitty : (owner kitty_id : ℕ) → Kitty → State → State
unfolding insert_owned_kitty
insert_kitty owner kitty_id k st = insert_owned_kitty owner kitty_id (record st {
  kitties = update st.kitties kitty_id (some k);
  kitties_count = (kitty_id + 1) % 2 ^ 32;
  kitty_owners = update st.kitty_owners kitty_id (some owner);
})

unfoldable pub is_kitty_owner : (who kitty_id : ℕ) → State → Bool
is_kitty_owner who kitty_id st = is_some (st.owned_kitties who (some kitty_id))

unfoldable pub do_transfer : (from to kitty_id : ℕ) → State → State
do_transfer from to kitty_id st = record st {
  owned_kitties = append to kitty_id (remove from kitty_id st.owned_kitties);
  kitty_owners = update st.kitty_owners kitty_id (some to);
}

unfoldable pub transfer_kitty : (owner to kitty_id : ℕ) → Action State (Unit {0})
unfolding is_kitty_owner do_transfer deposit_event
transfer_kitty owner to kitty_id = do
  owns ← gets (is_kitty_owner owner kitty_id)
  ensure owns only_owner_can_transfer
  modify (do_transfer owner to kitty_id)
  modify (deposit_event (transferred owner to kitty_id))

module _ (hash : Hash) (b : Block) where
  unfoldable pub do_breed : (sender kitty_id_1 kitty_id_2 : ℕ) → Action State ℕ
  unfolding next_kitty_id random_value child_dna insert_kitty
  do_breed sender kitty_id_1 kitty_id_2 = do
    kitty1 ← gets (λ st. st.kitties kitty_id_1)
    kitty2 ← gets (λ st. st.kitties kitty_id_2)
    ensure (is_some kitty1) invalid_kitty_id_1
    ensure (is_some kitty2) invalid_kitty_id_2
    ensure (not (kitty_id_1 == kitty_id_2)) needs_different_parent
    owner1 ← gets (λ st. st.kitty_owners kitty_id_1)
    ensure (owner1 =? some sender) not_owner_of_kitty_1
    owner2 ← gets (λ st. st.kitty_owners kitty_id_2)
    ensure (owner2 =? some sender) not_owner_of_kitty_2
    kitty_id ← next_kitty_id
    k1 ← or_raise kitty1 invalid_kitty_id_1
    k2 ← or_raise kitty2 invalid_kitty_id_2
    let new_dna = child_dna k1.dna k2.dna (random_value hash b sender)
    modify (insert_kitty sender kitty_id (kitty new_dna))
    pure kitty_id

  module _ {Origin : Type 0} (sys : System Origin) (origin : Origin) where
    unfoldable pub create : Action State (Unit {0})
    unfolding next_kitty_id random_value insert_kitty deposit_event
    create = do
      sender ← or_raise (sys.ensure_signed origin) bad_origin
      kitty_id ← next_kitty_id
      let dna = random_value hash b sender
      modify (insert_kitty sender kitty_id (kitty dna))
      modify (deposit_event (created sender kitty_id))

    unfoldable pub breed : (kitty_id_1 kitty_id_2 : ℕ) → Action State (Unit {0})
    unfolding do_breed deposit_event
    breed kitty_id_1 kitty_id_2 = do
      sender ← or_raise (sys.ensure_signed origin) bad_origin
      new_kitty_id ← do_breed sender kitty_id_1 kitty_id_2
      modify (deposit_event (created sender new_kitty_id))

module _ {Origin : Type 0} (sys : System Origin) (origin : Origin) where
  unfoldable pub transfer : (to kitty_id : ℕ) → Action State (Unit {0})
  unfolding transfer_kitty
  transfer to kitty_id = do
    sender ← or_raise (sys.ensure_signed origin) bad_origin
    transfer_kitty sender to kitty_id

-- The storage before the first call.
abbrev pub genesis : State
genesis = record {
  kitties = λ k. none;
  kitties_count = 0;
  owned_kitties = λ a k. none;
  kitty_owners = λ k. none;
  events = [];
}
