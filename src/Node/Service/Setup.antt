-- ===== src/Node/Service/Setup.antt =====
-- The variable `import_setup` of service.rs: what the closure of the import queue leaves in it.
use archer_in_zoo.Prelude.{◌≡◌, ◌≢◌, refl, sym, ◌∙◌, Option, none, some, inl, inr}
use archer_in_zoo.Node.Effects.{
  done, panicked, Reply, fine, refused, Effect, ask, and_then, and_then-done, and_then-panicked,
}
use archer_in_zoo.Node.Framework.{Parts, Configuration, Framework, BuilderLaws}
use archer_in_zoo.Node.Service.{Local, make_import_queue, new_full_start}

pub ask-ne-panicked : {S A : Type 0} (r : Reply A) (s : S) → (ask r s).0 ≢ panicked
ask-ne-panicked (fine a) s e = cc
ask-ne-panicked (refused x) s e = cc

-- A question to the framework that the rest waits for.
pub asked_panicked :
    {S A B : Type 0} (r : Reply A) (k : A → Effect S B) (s : S)
    → (and_then (ask r s) k).0 ≡ panicked
    → (a : A) × (r ≡ fine a) × ((k a s).0 ≡ panicked)
asked_panicked (fine a) k s e = (a, refl, e)
asked_panicked (refused x) k s e = cc

pub asked_done :
    {S A B : Type 0} (r : Reply A) (k : A → Effect S B) (s : S) (b : B) (s' : S)
    → and_then (ask r s) k ≡ (done b, s')
    → (a : A) × (r ≡ fine a) × (k a s ≡ (done b, s'))
asked_done (fine a) k s b s' e = (a, refl, e)
asked_done (refused x) k s b s' e = cc

module _ (parts : Parts) (f : Framework parts) where
  open parts use {
    Client, SelectChain, Pool, BlockImport, LinkHalf, Queue, InherentDataProviders, Builder,
  }

  make_import_queue-ne-panicked :
      (p : InherentDataProviders) (client : Client) (chain : Option SelectChain) (pool : Pool)
      (s : Local parts)
      → (make_import_queue parts f p client chain pool s).0 ≢ panicked
  unfolding make_import_queue
  make_import_queue-ne-panicked p client none pool s e = cc
  make_import_queue-ne-panicked p client (some chain) pool s e =
      let (setup, _, e1) = asked_panicked (f.block_import client chain) _ s e in
      let (slot, _, e2) = asked_panicked (f.get_or_compute client) _ s e1 in
      let (queue, _, e3) = asked_panicked (f.import_queue _) _ s e2 in cc

  -- A block import with its link half that the import queue of some client was made with.
  pub record Imported (setup : BlockImport × LinkHalf) : Type 0 where
    pub client : Client
    pub chain : SelectChain
    pub made : f.block_import client chain ≡ fine setup

  make_import_queue-done :
      (p : InherentDataProviders) (client : Client) (chain : Option SelectChain) (pool : Pool)
      (s s' : Local parts) (queue : Queue)
      → make_import_queue parts f p client chain pool s ≡ (done queue, s')
      → (setup : BlockImport × LinkHalf) × Imported setup
        × (s' ≡ record s { import_setup = some setup })
  unfolding make_import_queue
  make_import_queue-done p client none pool s s' queue e = cc
  make_import_queue-done p client (some chain) pool s s' queue e =
      let (setup, made, e1) = asked_done (f.block_import client chain) _ s queue s' e in
      let (slot, _, e2) = asked_done (f.get_or_compute client) _ s queue s' e1 in
      let (queue', _, e3) = asked_done (f.import_queue _) _ s queue s' e2 in
      (setup, record { client = client; chain = chain; made = made }, cc)

  -- The start of a full service returns only with the pair in place.
  pub new_full_start-done :
      (laws : BuilderLaws parts f) (config : Configuration parts) (s s' : Local parts)
      (r : Builder × InherentDataProviders)
      → new_full_start parts f config s ≡ (done r, s')
      → (setup : BlockImport × LinkHalf) × Imported setup
        × (s' ≡ record s { import_setup = some setup })
        × (r.1 ≡ f.new_providers)
  unfolding new_full_start
  new_full_start-done laws config s s' r e =
      let s0 : Local parts = record s { import_setup = none } in
      let (b0, _, e0) = asked_done (f.new_full_builder config) _ s0 r s' e in
      let (b1, _, e1) = asked_done (f.with_select_chain _ b0) _ s0 r s' e0 in
      let (b2, _, e2) = asked_done (f.with_transaction_pool _ b1) _ s0 r s' e1 in
      let (b3, s3, e3, end) =
        and_then-done
          (f.with_import_queue (Local parts) (make_import_queue parts f f.new_providers) b2 s0) _ r
          s' e2 in
      let (client, chain, pool, queue, called) =
        laws.queued (Local parts) (make_import_queue parts f f.new_providers) b2 b3 s0 s3 e3 in
      let (setup, imported, set) = make_import_queue-done _ client chain pool s0 s3 queue called in
      (setup, imported, (let same : s3 ≡ s' = cc in sym same ∙ set), cc)

  pub new_full_start-ne-panicked :
      (laws : BuilderLaws parts f) (config : Configuration parts) (s : Local parts)
      → (new_full_start parts f config s).0 ≢ panicked
  unfolding new_full_start
  new_full_start-ne-panicked laws config s e =
      let s0 : Local parts = record s { import_setup = none } in
      let (b0, _, e0) = asked_panicked (f.new_full_builder config) _ s0 e in
      let (b1, _, e1) = asked_panicked (f.with_select_chain _ b0) _ s0 e0 in
      let (b2, _, e2) = asked_panicked (f.with_transaction_pool _ b1) _ s0 e1 in
      let built =
        f.with_import_queue (Local parts) (make_import_queue parts f f.new_providers) b2 s0 in
      elim (and_then-panicked built _ e2) [
        | inl e3 ↦
            let (client, chain, pool, called) = laws.passed_on (Local parts) _ b2 s0 e3 in
            make_import_queue-ne-panicked _ client chain pool s0 called
        | inr (b3, s3, made, e3) ↦ cc
      ]
