-- ===== src/Kitties/Refinement.antt =====
-- The operations of kitties.rs and those of the registry.
use archer_in_zoo.Prelude.{
  ℕ, ◌<◌, ◌≡◌, refl, sym, ◌∙◌, true, false, Option, none, some, List, [], ◌∷◌, ◌++◌, ◌==◌, ◌=?◌,
  if◌then◌else◌, update, contains, erase, arith, Bool-cases, inl, inr, contains-snoc,
  contains-erase_ne, contains-erase_self,
}
use archer_in_zoo.LinkedItem.{Storage, append, remove, read}
use archer_in_zoo.LinkedItem.Represents.{Represents}
use archer_in_zoo.LinkedItem.Represents.Chain.{item_of-none, item_of-some}
use archer_in_zoo.LinkedItem.Represents.Append.{append-Represents, append_other}
use archer_in_zoo.LinkedItem.Represents.Remove.{remove-Represents, remove_other}
use archer_in_zoo.Kitties.{
  Kitty, State, kitty_index_max, insert_kitty, is_kitty_owner, do_transfer, genesis,
}
use archer_in_zoo.Kitties.Registry.{Registry, empty, mint, move, Refines}

-- A list is represented in every storage that agrees on its key.
Represents-frame :
    (s t : Storage) (key : ℕ) (xs : List ℕ)
    → ((q : Option ℕ) → t key q ≡ s key q)
    → Represents s key xs
    → Represents t key xs
unfolding read
Represents-frame s t key xs same r = record {
  distinct = r.distinct;
  head = rw (same none) r.head;
  entries = λ y. same (some y) ∙ r.entries y;
}

-- Appending under one account, seen from every account.
append-lists :
    (s : Storage) (owned : ℕ → List ℕ) (key v : ℕ)
    → ((a : ℕ) → Represents s a (owned a))
    → contains v (owned key) ≡ false
    → (a : ℕ) → Represents (append key v s) a (update owned key (owned key ++ v ∷ []) a)
append-lists s owned key v listed fresh a = elim (Bool-cases (a == key)) [
  | inl same ↦
      let e : a ≡ key = ground arith in
      rw same (rw e (append-Represents s key v (owned key) (listed key) fresh))
  | inr ne ↦ rw ne (
      Represents-frame s (append key v s) a (owned a) (λ q. append_other s key v a q ne) (listed a))
]

remove-lists :
    (s : Storage) (owned : ℕ → List ℕ) (key v : ℕ)
    → ((a : ℕ) → Represents s a (owned a))
    → contains v (owned key) ≡ true
    → (a : ℕ) → Represents (remove key v s) a (update owned key (erase v (owned key)) a)
remove-lists s owned key v listed held a = elim (Bool-cases (a == key)) [
  | inl same ↦
      let e : a ≡ key = ground arith in
      rw same (rw e (remove-Represents s key v (owned key) (listed key) held))
  | inr ne ↦ rw ne (
      Represents-frame s (remove key v s) a (owned a) (λ q. remove_other s key v a q ne) (listed a))
]

pub genesis-Refines : Refines genesis empty
unfolding read
genesis-Refines = record {
  counted = refl;
  bounded = omega arith;
  stored = λ k. refl;
  numbered = λ k. ground arith;
  listed = λ a. record { distinct = tt; head = refl; entries = λ y. refl };
  owners = λ k a. refl;
  owned_below = λ k. ground arith;
}

-- Under the refinement both records of ownership agree: `is_kitty_owner` reads the links, and
-- `KittyOwners` says the same.
pub is_kitty_owner-eq :
    (st : State) (r : Registry) (who k : ℕ)
    → Refines st r
    → (is_kitty_owner who k st ≡ contains k (r.owned who))
      × (is_kitty_owner who k st ≡ (st.kitty_owners k =? some who))
unfolding is_kitty_owner
is_kitty_owner-eq st r who k h = elim (Bool-cases (contains k (r.owned who))) [
  | inl held ↦
      let (i, e) = item_of-some none (r.owned who) k held in
      let there : st.owned_kitties who (some k) ≡ some i = (h.listed who).entries k ∙ e in
      rw there (sym held, sym held ∙ h.owners k who)
  | inr missing ↦
      let none_there = (h.listed who).entries k ∙ item_of-none none (r.owned who) k missing in
      rw none_there (sym missing, sym missing ∙ h.owners k who)
]

-- Inserting a kitty under the next number mints it.
pub insert_kitty-Refines :
    (st : State) (r : Registry) (owner : ℕ) (k : Kitty)
    → Refines st r
    → st.kitties_count < kitty_index_max
    → Refines (insert_kitty owner st.kitties_count k st) (mint owner k r)
unfolding insert_kitty
insert_kitty-Refines st r owner k h room =
    let fresh : (a : ℕ) → contains r.count (r.owned a) ≡ false =
      λ a. ground (arith, h.owners r.count a, h.owned_below r.count) in
    rw h.counted (record {
      counted = ground (arith, h.counted);
      bounded = ground (arith, h.counted);
      stored = λ j. ground (arith, h.stored j);
      numbered = λ j. ground (arith, h.numbered j);
      listed = append-lists st.owned_kitties r.owned owner r.count h.listed (fresh owner);
      owners = λ j a. ground (
        arith,
        h.owners j a,
        fresh a,
        contains-snoc j r.count (r.owned owner),
        h.owners j owner,
        fresh owner,
      );
      owned_below = λ j. ground (arith, h.owned_below j);
    })

module _ (st : State) (r : Registry) (from to k : ℕ) (h : Refines st r)
    (held : contains k (r.owned from) ≡ true) where
  taken : ℕ → List ℕ
  taken = update r.owned from (erase k (r.owned from))

  contains-taken :
      (j a : ℕ) → contains j (taken a) ≡ (if j == k then false else st.kitty_owners j =? some a)
  unfolding taken
  contains-taken j a = ground (
    arith,
    h.owners j a,
    h.owners k from,
    contains-erase_self k (r.owned from) (h.listed from).distinct,
    contains-erase_ne j k (r.owned from),
  )

  -- `do_transfer` moves the kitty.
  pub do_transfer-Refines : Refines (do_transfer from to k st) (move from to k r)
  unfolding do_transfer taken
  do_transfer-Refines = record {
    counted = h.counted;
    bounded = h.bounded;
    stored = h.stored;
    numbered = h.numbered;
    listed =
        append-lists (remove from k st.owned_kitties) taken to k
          (remove-lists st.owned_kitties r.owned from k h.listed held)
          (ground (arith, contains-taken k to));
    owners = λ j a.
        ground (arith, contains-snoc j k (taken to), contains-taken j to, contains-taken j a);
    owned_below = λ j. ground (arith, h.owned_below j, h.owners k from, h.owned_below k);
  }
