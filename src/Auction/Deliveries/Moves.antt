-- ===== src/Auction/Deliveries/Moves.antt =====
-- Who may lose an item by a call, where the items are lawful.
use archer_in_zoo.Prelude.{ℕ, ◌≡◌, ap, true, false, arith, Bool-cases, inl, inr}
use archer_in_zoo.Traits.{ItemTransfer, Lawful}
use archer_in_zoo.Auction.Types.{Store}
use archer_in_zoo.Auction.Deliveries.{Sale, Deliveries, nothing, delivered}

-- The account's auction sells the item.
pub record Sold (s : Store) (who item : ℕ) : Type 0 where
  pub sale : Sale s
  pub owner : sale.auction.owner ≡ who
  pub same_item : sale.item ≡ item

module _ {I : Type 0} (t : ItemTransfer I) (Good : I → Type 0) (lawful : Lawful t Good)
    (s : Store) where
  pub Deliveries-Good : {x y : I} → Deliveries t s x y → Good x → Good y
  Deliveries-Good nothing g = g
  Deliveries-Good {x} (delivered sale d) g =
      Deliveries-Good d (lawful.gives_good sale.auction.owner sale.winner sale.item x g)

  -- The transfer of one sale.
  transfer_item-Sold :
      (sale : Sale s) (who item : ℕ) (x : I)
      → Good x
      → t.is_item_owner who item x ≡ true
      → t.is_item_owner who item (t.transfer_item sale.auction.owner sale.winner sale.item x).1
        ≡ false
      → Sold s who item
  transfer_item-Sold sale who item x g mine lost =
      elim (Bool-cases (t.is_item_owner sale.auction.owner sale.item x)) [
        | inr foreign ↦
            let (e, refused) = lawful.refuses sale.auction.owner sale.winner sale.item x foreign in
            let same = ap (λ r. t.is_item_owner who item r.1) refused in
            absurd (ground (arith, mine, lost, same))
        | inl owns ↦
            let after =
              lawful.owner_after sale.auction.owner sale.winner sale.item who item x g owns in
            let same_item : sale.item ≡ item = ground (arith, after, mine, lost) in
            record {
              sale = sale;
              owner = lawful.unique sale.auction.owner who item x g (rw (← same_item) owns) mine;
              same_item = same_item;
            }
      ]

  -- Whoever had an item before the transfers and has it no longer has sold it.
  pub Deliveries-Sold :
      {x y : I}
      → Deliveries t s x y
      → (who item : ℕ) → Good x
      → t.is_item_owner who item x ≡ true
      → t.is_item_owner who item y ≡ false
      → Sold s who item
  Deliveries-Sold nothing who item g mine lost = absurd (ground (arith, mine, lost))
  Deliveries-Sold {x} (delivered sale d) who item g mine lost =
      let z = (t.transfer_item sale.auction.owner sale.winner sale.item x).1 in
      elim (Bool-cases (t.is_item_owner who item z)) [
        | inl still ↦
            Deliveries-Sold d who item
              (lawful.gives_good sale.auction.owner sale.winner sale.item x g) still lost
        | inr gone ↦ transfer_item-Sold sale who item x g mine gone
      ]
