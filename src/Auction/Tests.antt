-- ===== src/Auction/Tests.antt =====
-- A currency, keys, kitties and a storage with one running auction, on which the theorems are tried.
pub mod Histories
pub mod Accounts
pub mod Mocks
pub mod Bids
pub mod Worker
pub mod Rounds
pub mod Sales
use archer_in_zoo.Prelude.{
  ℕ, ◌+◌, ◌-◌, ◌≡◌, refl, not, ◌&&◌, Option, none, some, [], ◌∷◌, is_some, ltb, leb, ◌==◌,
  if◌then◌else◌, arith, update,
}
use archer_in_zoo.System.{System}
use archer_in_zoo.Outcome.{ok, err, other}
use archer_in_zoo.Kitties.{kitty, insert_kitty}
use archer_in_zoo.Kitties.Registry.{empty, mint}
use archer_in_zoo.Kitties.Refinement.{genesis-Refines, insert_kitty-Refines}
use archer_in_zoo.Kitties.Items.{IsSound}
use archer_in_zoo.Auction.Types.{Auction, pending_start, active, Store, empty_store}
use archer_in_zoo.Auction.Currency.{Currency, World}
use archer_in_zoo.Auction.Passive.{Keys, Aura}
use archer_in_zoo.Auction.WellFormed.{WellFormed, update-Stored, some_eq}
use archer_in_zoo.Auction.Settlement.{CurrencyLaws}
use archer_in_zoo.Runtime.Constants.{existential_deposit}

-- Balances without locks: a ledger is each account's free balance, and a transfer that leaves less
-- than the deposit of the runtime leaves nothing.
abbrev pub Balances : Type 0
Balances = ℕ → ℕ

abbrev pub take_from : (account value : ℕ) → Balances → Balances
take_from account value l q = if q == account then l q - value else l q

abbrev pub give_to : (account value : ℕ) → Balances → Balances
give_to account value l q = if q == account then l q + value else l q

abbrev pub reap : (account : ℕ) → Balances → Balances
reap account l q = if q == account && ltb (l q) existential_deposit then 0 else l q

abbrev pub coins : Currency Balances
coins = record {
  free_balance = λ l q. l q;
  extend_lock = λ id account amount l. l;
  set_lock = λ id account amount l. l;
  remove_lock = λ id account l. l;
  withdraw = λ account value l.
      if leb value (l account) then (ok value, take_from account value l) else (err (other 0), l);
  transfer = λ source dest value l.
      if leb value (l source)
      then (ok tt, give_to dest value (reap source (take_from source value l)))
      else (err (other 0), l);
  on_unbalanced = λ imbalance l. l;
  drop_imbalance = λ imbalance l. l;
}

pub coins-CurrencyLaws : CurrencyLaws coins existential_deposit
coins-CurrencyLaws = record {
  set_lock_free = λ id account amount q l. refl;
  remove_lock_free = λ id account q l. refl;
  on_unbalanced_free = λ imbalance q l. refl;
  withdrawn = λ account value n q l e. ground (arith, e);
  transferred = λ source dest value q l covered e. ground (arith, e);
}

-- A key signs with its number.
abbrev pub seals : Keys ℕ
seals = record {
  encode = λ ids. ids;
  verify = λ key payload sig. sig == key;
  sign = λ key payload. some key;
}

abbrev pub some_system : System (Option ℕ)
some_system = record { ensure_signed = λ o. o; ensure_none = λ o. not (is_some o) }

abbrev pub some_aura : Aura
some_aura = record { last = 100; authorities = 4 ∷ 7 ∷ []; local_keys = 7 ∷ [] }

-- Auction 0 of account 1's kitty 0; account 3 bid 50 on it and account 2 bid 100.
abbrev pub some_auction : Auction
some_auction = record {
  id = 0;
  item = some 0;
  owner = 1;
  start_at = some 10;
  stop_at = some 90;
  wait_period = some 20;
  begin_price = 10;
  upper_bound_price = some 500;
  minimum_step = 5;
  latest_participate = some (2, 60);
  status = active;
}

abbrev pub some_store : Store
some_store = record empty_store {
  next_auction_id = 1;
  account_locks = update (update (λ q. none) 2 (some 130)) 3 (some 50);
  auctions = update (λ i. none) 0 (some some_auction);
  auction_bids = update (λ i q. none) 0 (update (update (λ q. none) 2 (some 100)) 3 (some 50));
  auction_participants = update (λ i. none) 0 (some (3 ∷ 2 ∷ []));
  active_auctions = 0 ∷ [];
}

abbrev pub some_kitties : archer_in_zoo.Kitties.State
some_kitties = insert_kitty 1 0 (kitty []) archer_in_zoo.Kitties.genesis

abbrev pub some_world : World Balances archer_in_zoo.Kitties.State
some_world = record { store = some_store; ledger = λ q. 1000; items = some_kitties }

pub some_store-WellFormed : WellFormed some_store
some_store-WellFormed = record {
  numbered = λ i. ground arith;
  bounded = omega arith;
  ids =
      update-Stored (λ i a. a.id ≡ i) (λ i. none) 0 (some some_auction) (λ i a e. cc)
        (λ a e. rw (← some_eq e) refl);
  no_early_bid =
      update-Stored (λ i a. a.status ≡ pending_start → a.latest_participate ≡ none) (λ i. none) 0
        (some some_auction) (λ i a e. cc) (λ a e. rw (← some_eq e) λ p. cc);
}

pub some_kitties-IsSound : IsSound some_kitties
some_kitties-IsSound = (
  mint 1 (kitty []) empty,
  insert_kitty-Refines archer_in_zoo.Kitties.genesis empty 1 (kitty []) genesis-Refines
      (omega arith),
)
