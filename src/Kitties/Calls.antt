-- ===== src/Kitties/Calls.antt =====
-- The dispatchable calls of kitties.rs, the abstract calls that they implement, and histories.
use archer_in_zoo.Prelude.{
  ℕ, ◌≡◌, refl, sym, ap, Bool, true, false, Option, none, some, List, [], ◌==◌, ◌=?◌, if◌then◌else◌,
  is_some, contains, not, arith, Bool-cases, inl, inr,
}
use archer_in_zoo.Outcome.{
  Error, Result, ok, err, kitties_count_overflow, only_owner_can_transfer, invalid_kitty_id_1,
  invalid_kitty_id_2, needs_different_parent, not_owner_of_kitty_1, not_owner_of_kitty_2,
}
use archer_in_zoo.Kitties.{
  created, Kitty, kitty, Event, State, kitty_index_max, insert_kitty, transfer_kitty, deposit_event,
  next_kitty_id, do_breed, create, breed, child_dna, random_value,
}
use mathlib.Core.Path.{ap₂}
use archer_in_zoo.System.{System, Block, Hash}
use archer_in_zoo.Kitties.Registry.{Registry, mint, move, Refines}
use archer_in_zoo.Kitties.Refinement.{is_kitty_owner-eq, insert_kitty-Refines, do_transfer-Refines}

-- A call of the module, with the block that it runs in.
pub data Call (Origin : Type 0) : Type 0 where
  create_call : Origin → Block → Call Origin
  breed_call : Origin → Block → (kitty_id_1 kitty_id_2 : ℕ) → Call Origin
  transfer_call : Origin → (to kitty_id : ℕ) → Call Origin

-- The abstract calls, on a registry: the checks in order, then one change.
abbrev pub checked : {S : Type 0} → Bool → Error → S → Result (Unit {0}) × S → Result (Unit {0}) × S
checked b e r rest = if b then rest else (err e, r)

abbrev pub has_room : Registry → Bool
has_room r = not (r.count == kitty_index_max)

abbrev pub dna_of : Option Kitty → List ℕ
dna_of none = []
dna_of (some k) = k.dna

abbrev pub transfer_spec : (sender to k : ℕ) → Registry → Result (Unit {0}) × Registry
transfer_spec sender to k r =
    checked (contains k (r.owned sender)) only_owner_can_transfer r (ok tt, move sender to k r)

abbrev pub create_spec : ℕ → List ℕ → Registry → Result (Unit {0}) × Registry
create_spec sender dna r =
    checked (has_room r) kitties_count_overflow r (ok tt, mint sender (kitty dna) r)

abbrev pub breed_spec : ℕ → List ℕ → (k1 k2 : ℕ) → Registry → Result (Unit {0}) × Registry
breed_spec sender selector k1 k2 r = checked (is_some (r.kitties k1)) invalid_kitty_id_1 r (
    checked (is_some (r.kitties k2)) invalid_kitty_id_2 r (
      checked (not (k1 == k2)) needs_different_parent r (
        checked (contains k1 (r.owned sender)) not_owner_of_kitty_1 r (
          checked (contains k2 (r.owned sender)) not_owner_of_kitty_2 r (
            checked (has_room r) kitties_count_overflow r (
              ok tt,
              mint sender
                  (kitty (child_dna (dna_of (r.kitties k1)) (dna_of (r.kitties k2)) selector)) r,
            ))))))

abbrev pub Run : Type 0 → Type 0
Run S = Result (Unit {0}) × S

-- Equal results, and states in the refinement relation.
pub record Simulates (x : Run State) (x' : Run Registry) : Type 0 where
  pub same_result : x.0 ≡ x'.0
  pub refines : Refines x.1 x'.1

abbrev pub simulates :
    {x : Result (Unit {0}) × State} {x' : Result (Unit {0}) × Registry}
    → x.0 ≡ x'.0
    → Refines x.1 x'.1
    → Simulates x x'
simulates e h = record { same_result = e; refines = h }

deposit_event-Refines :
    (e : Event) (st : State) (r : Registry) → Refines st r → Refines (deposit_event e st) r
unfolding deposit_event
deposit_event-Refines e st r h = record {
  counted = h.counted;
  bounded = h.bounded;
  stored = h.stored;
  numbered = h.numbered;
  listed = h.listed;
  owners = h.owners;
  owned_below = h.owned_below;
}

module _ (st : State) (r : Registry) (h : Refines st r) where
  -- `transfer_kitty` moves a kitty of the sender's, and is refused for any other.
  pub transfer_kitty-Simulates :
      (sender to k : ℕ) → Simulates (transfer_kitty sender to k st) (transfer_spec sender to k r)
  unfolding transfer_kitty
  transfer_kitty-Simulates sender to k = elim (Bool-cases (contains k (r.owned sender))) [
    | inl held ↦
        rw ((is_kitty_owner-eq st r sender k h).0, held)
          (simulates refl
            (deposit_event-Refines _ _ _ (do_transfer-Refines st r sender to k h held)))
    | inr missing ↦ rw ((is_kitty_owner-eq st r sender k h).0, missing) (simulates refl h)
  ]

  checked-Simulates :
      (b b' : Bool) (e : Error) (x : Result (Unit {0}) × State) (x' : Result (Unit {0}) × Registry)
      → b ≡ b'
      → (b ≡ true → Simulates x x')
      → Simulates (checked b e st x) (checked b' e r x')
  checked-Simulates true b' e x x' same rest = rw (← same) (rest refl)
  checked-Simulates false b' e x x' same rest = rw (← same) (simulates refl h)

  -- A call that inserts a kitty under the next number and reports it.
  mint-Refines :
      (sender : ℕ) (k k' : Kitty) (e : Event)
      → k ≡ k'
      → not (st.kitties_count == kitty_index_max) ≡ true
      → Refines (deposit_event e (insert_kitty sender st.kitties_count k st)) (mint sender k' r)
  mint-Refines sender k k' e same room = rw (← same) (
      deposit_event-Refines e _ _
        (insert_kitty-Refines st r sender k h (ground (arith, h.counted, h.bounded))))

  same_room : not (st.kitties_count == kitty_index_max) ≡ has_room r
  same_room = ground (arith, h.counted)

  module _ {Origin : Type 0} (sys : System Origin) (origin : Origin) (hash : Hash) (b : Block)
      (sender : ℕ) (signed : sys.ensure_signed origin ≡ some sender) where
    create_flat :
        create hash b sys origin st
        ≡ checked (not (st.kitties_count == kitty_index_max)) kitties_count_overflow st (
          ok tt,
          deposit_event
              (created sender st.kitties_count)
              (insert_kitty sender st.kitties_count (kitty (random_value hash b sender)) st),
        )
    unfolding create next_kitty_id
    create_flat = ground (arith, signed)

    -- `create` mints a kitty with the random value of the sender, or fails at the last number.
    pub create-Simulates :
        Simulates (create hash b sys origin st) (create_spec sender (random_value hash b sender) r)
    create-Simulates = rw create_flat (
        checked-Simulates _ _ kitties_count_overflow _ _ same_room
          λ room. simulates refl (mint-Refines sender _ _ _ refl room))

    breed_flat :
        (k1 k2 : ℕ)
        → breed hash b sys origin k1 k2 st
          ≡ checked (is_some (st.kitties k1)) invalid_kitty_id_1 st (
              checked (is_some (st.kitties k2)) invalid_kitty_id_2 st (
                checked (not (k1 == k2)) needs_different_parent st (
                  checked (st.kitty_owners k1 =? some sender) not_owner_of_kitty_1 st (
                    checked (st.kitty_owners k2 =? some sender) not_owner_of_kitty_2 st (
                      checked
                        (not (st.kitties_count == kitty_index_max))
                        kitties_count_overflow
                        st
                        (
                          ok tt,
                          deposit_event (created sender st.kitties_count) (
                              insert_kitty sender st.kitties_count
                                (kitty (
                                  child_dna
                                    (dna_of (st.kitties k1))
                                    (dna_of (st.kitties k2))
                                    (random_value hash b sender)))
                                st),
                        ))))))
    unfolding breed do_breed next_kitty_id
    breed_flat k1 k2 = ground (arith, signed)

    -- `breed`, its parents and its checks read from the registry.
    pub breed-Simulates :
        (k1 k2 : ℕ)
        → Simulates
            (breed hash b sys origin k1 k2 st)
            (breed_spec sender (random_value hash b sender) k1 k2 r)
    breed-Simulates k1 k2 =
        let same_child : kitty (
              child_dna (dna_of (st.kitties k1)) (dna_of (st.kitties k2))
                (random_value hash b sender))
            ≡ kitty (
                child_dna (dna_of (r.kitties k1)) (dna_of (r.kitties k2))
                  (random_value hash b sender)) =
          ap₂ (λ o o'. kitty (child_dna (dna_of o) (dna_of o') (random_value hash b sender)))
            (h.stored k1) (h.stored k2) in
        rw (breed_flat k1 k2) (
          checked-Simulates _ _ invalid_kitty_id_1 _ _ (ap is_some (h.stored k1)) λ _.
            checked-Simulates _ _ invalid_kitty_id_2 _ _ (ap is_some (h.stored k2)) λ _.
              checked-Simulates (not (k1 == k2)) _ needs_different_parent _ _ refl λ _.
                checked-Simulates _ _ not_owner_of_kitty_1 _ _ (sym (h.owners k1 sender)) λ _.
                  checked-Simulates _ _ not_owner_of_kitty_2 _ _ (sym (h.owners k2 sender)) λ _.
                    checked-Simulates _ _ kitties_count_overflow _ _ same_room
                      λ room. simulates refl (mint-Refines sender _ _ _ same_child room))
