-- ===== src/Auction/Settlement.antt =====
-- The settlement of an auction: what `do_unlock_balance` releases and what the winner pays.
pub mod Locks
pub mod Winner
pub mod Unread
pub mod Payment
pub mod Stop
pub mod Covered
pub mod Unsold
pub mod Lowered
pub mod Failed
pub mod Sold
pub mod Payable
use archer_in_zoo.Prelude.{ℕ, List, ◌+◌, ◌≤◌, ◌≡◌, if◌then◌else◌, ◌==◌}
use archer_in_zoo.Outcome.{ok}
use archer_in_zoo.Auction.Currency.{Currency}

-- What is documented of a currency: locks and the handler of fees leave the free balances, and a
-- withdrawal or a transfer that succeeds moves what it says and nothing else; but what a transfer
-- leaves below the minimum balance of an account is lost with the account.
pub record CurrencyLaws {L : Type 0} (c : Currency L) (minimum : ℕ) : Type 0 where
  pub set_lock_free :
      (id : List ℕ) (account amount q : ℕ) (l : L)
      → c.free_balance (c.set_lock id account amount l) q ≡ c.free_balance l q
  pub remove_lock_free :
      (id : List ℕ) (account q : ℕ) (l : L)
      → c.free_balance (c.remove_lock id account l) q ≡ c.free_balance l q
  pub on_unbalanced_free :
      (imbalance q : ℕ) (l : L)
      → c.free_balance (c.on_unbalanced imbalance l) q ≡ c.free_balance l q
  pub withdrawn :
      (account value n q : ℕ) (l : L)
      → (c.withdraw account value l).0 ≡ ok n
      → c.free_balance (c.withdraw account value l).1 q + (if q == account then value else 0)
        ≡ c.free_balance l q
  pub transferred :
      (source dest value q : ℕ) (l : L)
      → value + minimum ≤ c.free_balance l source
      → (c.transfer source dest value l).0 ≡ ok tt
      → c.free_balance (c.transfer source dest value l).1 q + (if q == source then value else 0)
        ≡ c.free_balance l q + (if q == dest then value else 0)
