-- ===== src/Auction/Tests/Worker.antt =====
-- The worker and its transactions on the sample storage.
use archer_in_zoo.Prelude.{none, some, ℕ, ◌≡◌, refl, true, List, [], ◌∷◌, arith, inr, update}
use archer_in_zoo.Auction.Types.{Store}
use archer_in_zoo.Auction.Tests.{
  some_auction, coins, seals, some_system, some_aura, some_store, some_world, some_store-WellFormed,
}
use archer_in_zoo.Kitties.Items.{kitty_items}
use archer_in_zoo.Auction.Passive.{Keys, Aura, start_auctions_passive, stop_auctions_passive}
use archer_in_zoo.Auction.Offchain.{
  start_call, stop_call, stoping_auction_ids, offchain, validate_unsigned,
}
use archer_in_zoo.Auction.Due.{should_stop}
use archer_in_zoo.Auction.Validation.{is_valid, is_ok, validate_unsigned-eq, offchain_valid}

pub seals_genuine :
    (key : ℕ) (payload : List ℕ) (sig : ℕ)
    → seals.sign key payload ≡ some sig
    → seals.verify key payload sig ≡ true
seals_genuine key payload sig e = ground (arith, e)

validate_unsigned-eq_example :
    (is_valid (validate_unsigned seals some_aura (some (start_call (0 ∷ []) 7)) some_store)
      ≡ is_ok
          (start_auctions_passive coins kitty_items seals some_system some_aura none
            (0 ∷ [])
            7
            some_world).0)
    × (is_valid (validate_unsigned seals some_aura (some (stop_call (0 ∷ []) 7)) some_store)
        ≡ is_ok
            (stop_auctions_passive coins kitty_items seals some_system some_aura none
              (0 ∷ [])
              7
              some_world).0)
validate_unsigned-eq_example =
    validate_unsigned-eq coins kitty_items seals some_system some_aura none (0 ∷ []) 7 some_world
      refl

offchain_valid_example :
    is_valid (validate_unsigned seals some_aura (some (stop_call (0 ∷ []) 7)) some_store) ≡ true
unfolding offchain archer_in_zoo.Auction.Passive.authority_id
offchain_valid_example =
    offchain_valid seals some_aura (λ call. true) some_store (stop_call (0 ∷ []) 7)
      some_store-WellFormed seals_genuine (inr refl)

-- A bid that has reached the upper bound of an auction without a stop time: it should end, and the
-- worker leaves it.
abbrev no_stop_at : Store
no_stop_at = record some_store {
  auctions =
      update (λ i. none) 0
        (some (record some_auction { stop_at = none; upper_bound_price = some 100 }));
}

left_running_test :
    (should_stop 100 no_stop_at (no_stop_at.auctions 0) ≡ true)
    × (stoping_auction_ids 100 no_stop_at ≡ [])
unfolding stoping_auction_ids
left_running_test = (refl, refl)
