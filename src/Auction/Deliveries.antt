-- ===== src/Auction/Deliveries.antt =====
-- The items that a call of auction/mod.rs hands over.
pub mod Settling
pub mod Kept
pub mod Calls
pub mod Moves
use archer_in_zoo.Prelude.{ℕ, ◌≡◌, false, some}
use archer_in_zoo.Traits.{ItemTransfer}
use archer_in_zoo.Auction.Types.{Auction, Store, stopped, same_status}

-- A stored auction that is not stopped and has an item and a latest bid.
pub record Sale (s : Store) : Type 0 where
  pub auction_id : ℕ
  pub auction : Auction
  pub item : ℕ
  pub winner : ℕ
  pub moment : ℕ
  pub found : s.auctions auction_id ≡ some auction
  pub live : same_status auction.status stopped ≡ false
  pub has_item : auction.item ≡ some item
  pub has_bid : auction.latest_participate ≡ some (winner, moment)

-- The items after transfers from the owners of such auctions to their latest bidders.
pub data Deliveries {I : Type 0} (t : ItemTransfer I) (s : Store) : I → I → Type 0 where
  nothing : {x : I} → Deliveries t s x x
  delivered :
      {x y : I} (sale : Sale s)
      → Deliveries t s (t.transfer_item sale.auction.owner sale.winner sale.item x).1 y
      → Deliveries t s x y

-- An auction as it was in an earlier store: stored, not stopped, and on the same terms.
pub record Earlier (s : Store) (i : ℕ) (a : Auction) : Type 0 where
  pub auction : Auction
  pub found : s.auctions i ≡ some auction
  pub live : same_status auction.status stopped ≡ false
  pub owner : auction.owner ≡ a.owner
  pub item : auction.item ≡ a.item
  pub latest_participate : auction.latest_participate ≡ a.latest_participate

module _ {I : Type 0} {t : ItemTransfer I} {s : Store} where
  pub one_delivered :
      (sale : Sale s) (x : I)
      → Deliveries t s x (t.transfer_item sale.auction.owner sale.winner sale.item x).1
  one_delivered sale x = delivered sale nothing

  pub Deliveries-trans : {x y z : I} → Deliveries t s x y → Deliveries t s y z → Deliveries t s x z
  Deliveries-trans nothing e = e
  Deliveries-trans (delivered sale d) e = delivered sale (Deliveries-trans d e)

  pub same_items : {x y : I} → y ≡ x → Deliveries t s x y
  same_items {x} e = rw e nothing
