-- ===== src/Node/Tests.antt =====
-- A node of numbers: each call of the framework answers with one.
use archer_in_zoo.Prelude.{
  ℕ, zero, suc, ◌+◌, ◌≡◌, refl, true, false, Option, none, some, [], ◌∷◌, inl, inr,
}
use archer_in_zoo.Node.Effects.{fine, done, pure, and_then, and_then-done, and_then-panicked}
use archer_in_zoo.Node.Framework.{Parts, Configuration, Framework, BuilderLaws}
use archer_in_zoo.Node.Service.{
  Local, fresh, spawn_essential_task, spawn_informant, fire_exit, shutdown_on_idle,
}
use archer_in_zoo.Node.Cli.{First, exit_ended, run_node}
use archer_in_zoo.Node.Cli.Runs.{Ran, run_node-Ran, run_node-panicked}

abbrev numbers : Parts
numbers = record {
  Roles = ℕ;
  Client = ℕ;
  Backend = ℕ;
  SelectChain = ℕ;
  PoolConfig = ℕ;
  Pool = ℕ;
  BlockImport = ℕ;
  LinkHalf = ℕ;
  Queue = ℕ;
  RequestBuilder = ℕ;
  FetchChecker = ℕ;
  InherentDataProviders = ℕ;
  SlotDuration = ℕ;
  Network = ℕ;
  Keystore = ℕ;
  OnExit = ℕ;
  Telemetry = ℕ;
  ProofProvider = ℕ;
  Builder = ℕ;
  Service = ℕ;
  Task = ℕ;
}

-- Role 1 is a light client and role 2 an authority.
abbrev node : Framework numbers
node = record {
  is_authority = λ r. elim r [ zero ↦ false | suc n ↦ elim n [ zero ↦ false | suc m ↦ true ] ];
  is_light = λ r. elim r [ zero ↦ false | suc n ↦ elim n [ zero ↦ true | suc m ↦ false ] ];
  new_providers = 0;
  new_full_builder = λ config. fine 0;
  new_light_builder = λ config. fine 0;
  with_select_chain = λ closure b. closure b;
  with_transaction_pool = λ closure b. closure 0 b;
  with_import_queue =
      λ S closure b s. and_then (closure 0 (some 0) 0 s) (λ queue. pure (b + queue));
  with_import_queue_and_fprb = λ closure b. fine b;
  with_network_protocol = λ protocol b. fine b;
  with_finality_proof_provider = λ closure b. fine b;
  build = λ b. fine b;
  longest_chain = λ backend. backend;
  new_pool = λ config client. client;
  proof_provider = λ backend client. client;
  get_or_compute = λ client. fine 6000;
  block_import = λ client chain. fine (11, 12);
  light_block_import = λ client backend checker. fine 11;
  request_builder = λ import. import;
  import_queue = λ params. fine 5;
  client_of = λ service. service;
  pool_of = λ service. service;
  select_chain_of = λ service. some 0;
  network_of = λ service. service;
  keystore_of = λ service. service;
  on_exit_of = λ service. service;
  telemetry_of = λ service. service;
  start_aura = λ params. fine 21;
  run_grandpa_observer = λ config link network on_exit. fine 22;
  run_grandpa_voter = λ params. fine 23;
  setup_disabled_grandpa = λ client providers network. fine tt;
}

same_state : {S : Type 0} {b b' : ℕ} {s s' : S} → pure b s ≡ (done b', s') → s ≡ s'
same_state e = cc

node-BuilderLaws : BuilderLaws numbers node
node-BuilderLaws = record {
  queued = λ S closure b b' s s' e.
      let (queue, s1, called, rest) =
        and_then-done (closure 0 (some 0) 0 s) (λ queue. pure (b + queue)) b' s' e in
      (0, some 0, 0, queue, rw (← same_state rest) called);
  passed_on = λ S closure b s e.
      elim (and_then-panicked (closure 0 (some 0) 0 s) (λ queue. pure (b + queue)) e) [
        | inl bad ↦ (0, some 0, 0, bad)
        | inr (queue, s1, called, bad) ↦ cc
      ];
}

abbrev authority : Configuration numbers
authority = record { roles = 2; force_authoring = false; name = "zoo"; disable_grandpa = false }

abbrev asked_to_exit : ℕ → First
asked_to_exit service = exit_ended true

abbrev after_exit : Local numbers
after_exit = record {
  import_setup = none;
  acts =
      spawn_essential_task 21
      ∷ spawn_essential_task 23
      ∷ spawn_informant
      ∷ fire_exit
      ∷ shutdown_on_idle
      ∷ [];
}

abbrev unset : Option (Unit {0})
unset = none

-- A node that cannot set its handler.
run_node-panicked_example : unset ≡ none
unfolding run_node
run_node-panicked_example =
    run_node-panicked numbers node (fine tt) unset asked_to_exit node-BuilderLaws authority
      (fresh numbers) refl

run_node-Ran_example : Ran numbers node (fine tt) (some tt) asked_to_exit false authority after_exit
unfolding run_node
run_node-Ran_example =
    run_node-Ran numbers node (fine tt) (some tt) asked_to_exit node-BuilderLaws authority tt
      after_exit refl
