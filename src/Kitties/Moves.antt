-- ===== src/Kitties/Moves.antt =====
-- Who may lose a kitty by a call of kitties.rs.
use archer_in_zoo.Prelude.{
  ℕ, update, ap, ◌&&◌, ◌≡◌, sym, ◌∙◌, true, false, some, List, ◌==◌, Bool-cases, Option-cases, inl,
  inr, contains, erase, arith, contains-snoc, contains-erase_ne,
}
use archer_in_zoo.System.{System, Hash}
use archer_in_zoo.Kitties.{State, Kitty, is_kitty_owner, random_value}
use archer_in_zoo.Kitties.Registry.{Registry, mint, move, Refines}
use archer_in_zoo.Kitties.Refinement.{is_kitty_owner-eq}
use archer_in_zoo.Kitties.Calls.{
  Call, create_call, breed_call, transfer_call, create_spec, breed_spec, transfer_spec,
}
use archer_in_zoo.Kitties.History.{dispatch, dispatch_spec, dispatch-Simulates}

mint-kept :
    (owner who j : ℕ) (k : Kitty) (r : Registry)
    → contains j (r.owned who) ≡ true
    → contains j ((mint owner k r).owned who) ≡ true
mint-kept owner who j k r h = ground (arith, h, contains-snoc j r.count (r.owned owner))

create-kept :
    (sender who j : ℕ) (dna : List ℕ) (r : Registry)
    → contains j (r.owned who) ≡ true
    → contains j ((create_spec sender dna r).1.owned who) ≡ true
create-kept sender who j dna r h = ground (arith, h, contains-snoc j r.count (r.owned sender))

breed-kept :
    (sender who j k1 k2 : ℕ) (selector : List ℕ) (r : Registry)
    → contains j (r.owned who) ≡ true
    → contains j ((breed_spec sender selector k1 k2 r).1.owned who) ≡ true
breed-kept sender who j k1 k2 selector r h =
    ground (arith, h, contains-snoc j r.count (r.owned sender))

module _ (sender to k who j : ℕ) (r : Registry) (h : contains j (r.owned who) ≡ true) where
  taken : ℕ → List ℕ
  taken = update r.owned sender (erase k (r.owned sender))

  taken-kept : ((who == sender) && (j == k)) ≡ false → contains j (taken who) ≡ true
  unfolding taken
  taken-kept apart = ground (arith, h, contains-erase_ne j k (r.owned sender))

  move-kept :
      ((who == sender) && (j == k)) ≡ false → contains j ((move sender to k r).owned who) ≡ true
  unfolding taken
  move-kept apart = ground (arith, taken-kept apart, contains-snoc j k (taken to))

  -- A transfer takes the kitty that it names from its signer, and no other.
  transfer-lost :
      contains j ((transfer_spec sender to k r).1.owned who) ≡ false → (sender ≡ who) × (k ≡ j)
  transfer-lost lost = elim (Bool-cases ((who == sender) && (j == k))) [
    | inl same ↦ ground (arith, same)
    | inr apart ↦ elim (Bool-cases (contains k (r.owned sender))) [
      | inl held ↦ let gone = rw held at lost in absurd (ground (arith, gone, move-kept apart))
      | inr missing ↦ let gone = rw missing at lost in absurd (ground (arith, gone, h))
    ]
  ]

module _ {Origin : Type 0} (sys : System Origin) (hash : Hash) where
  -- The call is a transfer of the kitty that the account has signed.
  abbrev pub TransferBy : Call Origin → (who kitty_id : ℕ) → Type 0
  TransferBy (create_call o b) who j = ⊥
  TransferBy (breed_call o b k1 k2) who j = ⊥
  TransferBy (transfer_call o to k) who j = (sys.ensure_signed o ≡ some who) × (k ≡ j)

  spec-TransferBy :
      (call : Call Origin) (r : Registry) (who j : ℕ)
      → contains j (r.owned who) ≡ true
      → contains j ((dispatch_spec sys hash call r).1.owned who) ≡ false
      → TransferBy call who j
  unfolding dispatch_spec
  spec-TransferBy (create_call o b) r who j h lost = elim (Option-cases (sys.ensure_signed o)) [
    | inl e ↦ let gone = rw e at lost in absurd (ground (arith, gone, h))
    | inr (sender, e) ↦
        let gone = rw e at lost in
        absurd (ground (arith, gone, create-kept sender who j (random_value hash b sender) r h))
  ]
  spec-TransferBy (breed_call o b k1 k2) r who j h lost =
      elim (Option-cases (sys.ensure_signed o)) [
        | inl e ↦ let gone = rw e at lost in absurd (ground (arith, gone, h))
        | inr (sender, e) ↦
            let gone = rw e at lost in
            let kept = breed-kept sender who j k1 k2 (random_value hash b sender) r h in
            absurd (ground (arith, gone, kept))
      ]
  spec-TransferBy (transfer_call o to k) r who j h lost =
      elim (Option-cases (sys.ensure_signed o)) [
        | inl e ↦ let gone = rw e at lost in absurd (ground (arith, gone, h))
        | inr (sender, e) ↦
            let gone = rw e at lost in
            let (signer, same) = transfer-lost sender to k who j r h gone in
            (e ∙ ap some signer, same)
      ]

  -- Whoever had a kitty before a call and has it no longer has signed its transfer.
  pub dispatch-TransferBy :
      (call : Call Origin) (st : State) (r : Registry) (who j : ℕ)
      → Refines st r
      → is_kitty_owner who j st ≡ true
      → is_kitty_owner who j (dispatch sys hash call st).1 ≡ false
      → TransferBy call who j
  dispatch-TransferBy call st r who j h mine lost =
      let after = (dispatch-Simulates sys hash call st r h).refines in
      spec-TransferBy call r who j (sym (is_kitty_owner-eq st r who j h).0 ∙ mine)
        (sym (is_kitty_owner-eq _ _ who j after).0 ∙ lost)
