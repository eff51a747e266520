-- ===== src/Kitties/History.antt =====
-- Whole histories of calls of kitties.rs, from the empty storage.
use archer_in_zoo.Prelude.{
  ℕ, ◌≤◌, ◌≡◌, refl, ap, ◌∙◌, Option, none, some, List, [], ◌∷◌, ◌=?◌, Option-cases, inl, inr,
  is_some, ltb,
}
use archer_in_zoo.Outcome.{Result, err, bad_origin}
use archer_in_zoo.Kitties.{
  transfer_kitty, State, is_kitty_owner, genesis, create, breed, transfer, random_value,
  kitty_index_max,
}
use archer_in_zoo.System.{System, Block, Hash}
use archer_in_zoo.Kitties.Registry.{Registry, empty, Refines}
use archer_in_zoo.Kitties.Refinement.{is_kitty_owner-eq, genesis-Refines}
use archer_in_zoo.Kitties.Calls.{
  Call, create_call, breed_call, transfer_call, Run, Simulates, simulates, create_spec, breed_spec,
  transfer_spec, create-Simulates, breed-Simulates, transfer_kitty-Simulates,
}

abbrev no_block : Block
no_block = record { random_seed = []; extrinsic_index = none; block_number = 0 }

-- What the registry says of the storage that refines it: who owns what.
pub refined_owners :
    (st : State) (r : Registry) (k who : ℕ)
    → Refines st r
    → (is_some (st.kitties k) ≡ ltb k st.kitties_count)
      × (is_some (st.kitty_owners k) ≡ ltb k st.kitties_count)
      × (is_kitty_owner who k st ≡ (st.kitty_owners k =? some who))
      × (st.kitties_count ≤ kitty_index_max)
refined_owners st r k who h = (
  ap is_some (h.stored k) ∙ rw h.counted (h.numbered k),
  rw h.counted (h.owned_below k),
  (is_kitty_owner-eq st r who k h).1,
  rw h.counted h.bounded,
)

module _ {Origin : Type 0} (sys : System Origin) (hash : Hash) where
  unfoldable pub dispatch : Call Origin → State → Run State
  dispatch (create_call o b) = create hash b sys o
  dispatch (breed_call o b k1 k2) = breed hash b sys o k1 k2
  dispatch (transfer_call o to k) = transfer sys o to k

  abbrev pub by_signer : Option ℕ → (ℕ → Registry → Run Registry) → Registry → Run Registry
  by_signer none f r = (err bad_origin, r)
  by_signer (some sender) f r = f sender r

  unfoldable pub dispatch_spec : Call Origin → Registry → Run Registry
  dispatch_spec (create_call o b) =
      by_signer (sys.ensure_signed o) λ sender. create_spec sender (random_value hash b sender)
  dispatch_spec (breed_call o b k1 k2) =
      by_signer (sys.ensure_signed o) λ sender. breed_spec sender (random_value hash b sender) k1 k2
  dispatch_spec (transfer_call o to k) =
      by_signer (sys.ensure_signed o) λ sender. transfer_spec sender to k

  -- A history: the result of each call, and the state after the last. A call that fails is passed
  -- over with whatever it has written.
  unfoldable pub run : List (Call Origin) → State → List (Result (Unit {0})) × State
  unfolding dispatch
  run [] st = ([], st)
  run (c ∷ cs) st =
      let (res, st') = dispatch c st in let (rest, st'') = run cs st' in (res ∷ rest, st'')

  unfoldable pub run_spec : List (Call Origin) → Registry → List (Result (Unit {0})) × Registry
  unfolding dispatch_spec
  run_spec [] r = ([], r)
  run_spec (c ∷ cs) r =
      let (res, r') = dispatch_spec c r in let (rest, r'') = run_spec cs r' in (res ∷ rest, r'')

  unsigned_calls :
      (o : Origin) (b : Block) (k1 k2 : ℕ) (st : State)
      → sys.ensure_signed o ≡ none
      → (create hash b sys o st ≡ (err bad_origin, st))
        × (breed hash b sys o k1 k2 st ≡ (err bad_origin, st))
        × (transfer sys o k1 k2 st ≡ (err bad_origin, st))
  unfolding create breed transfer
  unsigned_calls o b k1 k2 st e = rw e (refl, refl, refl)

  signed_transfer :
      (o : Origin) (sender to k : ℕ) (st : State)
      → sys.ensure_signed o ≡ some sender
      → transfer sys o to k st ≡ transfer_kitty sender to k st
  unfolding transfer
  signed_transfer o sender to k st e = rw e

  pub dispatch-Simulates :
      (c : Call Origin) (st : State) (r : Registry)
      → Refines st r
      → Simulates (dispatch c st) (dispatch_spec c r)
  unfolding dispatch dispatch_spec
  dispatch-Simulates (create_call o b) st r h = elim (Option-cases (sys.ensure_signed o)) [
    | inl e ↦ rw (e, (unsigned_calls o b 0 0 st e).0) (simulates refl h)
    | inr (sender, e) ↦ rw e (create-Simulates st r h sys o hash b sender e)
  ]
  dispatch-Simulates (breed_call o b k1 k2) st r h = elim (Option-cases (sys.ensure_signed o)) [
    | inl e ↦ rw (e, (unsigned_calls o b k1 k2 st e).1) (simulates refl h)
    | inr (sender, e) ↦ rw e (breed-Simulates st r h sys o hash b sender e k1 k2)
  ]
  dispatch-Simulates (transfer_call o to k) st r h = elim (Option-cases (sys.ensure_signed o)) [
    | inl e ↦ rw (e, (unsigned_calls o no_block to k st e).2) (simulates refl h)
    | inr (sender, e) ↦
        rw (e, signed_transfer o sender to k st e) (transfer_kitty-Simulates st r h sender to k)
  ]

  pub run-Refines :
      (cs : List (Call Origin)) (st : State) (r : Registry)
      → Refines st r
      → ((run cs st).0 ≡ (run_spec cs r).0) × Refines (run cs st).1 (run_spec cs r).1
  unfolding run run_spec
  run-Refines [] st r h = (refl, h)
  run-Refines (c ∷ cs) st r h =
      let s = dispatch-Simulates c st r h in
      let rest = run-Refines cs (dispatch c st).1 (dispatch_spec c r).1 s.refines in
      (λ i. s.same_result i ∷ rest.0 i, rest.1)

  -- From the empty storage, every history of calls returns what the abstract registry returns, and
  -- ends in storage that refines the registry: the linked lists hold each account's kitties in the
  -- order in which they came to it.
  pub history-Refines :
      (cs : List (Call Origin))
      → ((run cs genesis).0 ≡ (run_spec cs empty).0)
        × Refines (run cs genesis).1 (run_spec cs empty).1
  history-Refines cs = run-Refines cs genesis empty genesis-Refines

  -- After every history a number below the count has one owner and any other has none, and an
  -- account is the owner by the links exactly if it is the owner by `KittyOwners`.
  pub history_owners :
      (cs : List (Call Origin)) (k who : ℕ)
      → let st = (run cs genesis).1 in
        (is_some (st.kitties k) ≡ ltb k st.kitties_count)
        × (is_some (st.kitty_owners k) ≡ ltb k st.kitties_count)
        × (is_kitty_owner who k st ≡ (st.kitty_owners k =? some who))
        × (st.kitties_count ≤ kitty_index_max)
  history_owners cs k who = refined_owners _ _ k who (history-Refines cs).1
