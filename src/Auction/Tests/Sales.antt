-- ===== src/Auction/Tests/Sales.antt =====
-- When the sample currency moves money.
use archer_in_zoo.Prelude.{ℕ, ◌-◌, refl, arith}
use archer_in_zoo.Words.{balance_mod}
use archer_in_zoo.Auction.Settlement.Payable.{CurrencyProgress}
use archer_in_zoo.Runtime.Constants.{existential_deposit}
use archer_in_zoo.Auction.Tests.{coins}

abbrev pub maximum : ℕ
maximum = balance_mod - 1

-- Nothing is locked: the whole free balance is usable.
pub coins-CurrencyProgress : CurrencyProgress coins existential_deposit maximum coins.free_balance
coins-CurrencyProgress = record {
  usable_le = λ l q. omega arith;
  set_lock_usable = λ id account amount q l. refl;
  remove_lock_usable = λ id account q l. refl;
  withdraws = λ account value l e. (value, ground (arith, e));
  withdraw_usable = λ account value l e. ground (arith, e);
  transfers = λ source dest value l e alive fits. ground (arith, e);
}
