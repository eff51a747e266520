-- ===== src/Node/Service.antt =====
-- substrate-kitties/src/service.rs: a full service with its tasks, and a light one.
pub mod Setup
pub mod Tasks
use Prim.Native.String.{String}
use archer_in_zoo.Prelude.{Bool, true, false, Option, none, some, List, [], ◌∷◌, ◌++◌}
use archer_in_zoo.Node.Effects.{
  Reply, fine, refused, Effect, NodeError, select_chain_required, message, pure, ask, or_fail,
  expect, gets, modify, ◌>>=◌, ◌>>◌,
}
use archer_in_zoo.Node.Framework.{Parts, node_protocol, Configuration, GrandpaConfig, Framework}

module _ (parts : Parts) where
  open parts use {
    Client, Backend, SelectChain, PoolConfig, Pool, BlockImport, LinkHalf, Queue, RequestBuilder,
    FetchChecker, InherentDataProviders, ProofProvider, Builder, Service, Task,
  }

  -- What the node has asked of the framework with a lasting effect: tasks on the service, the set-up
  -- for a node that takes no part in finality; and, for the command line, the start of the informant,
  -- its exit signal, and the shutdown of the runtime.
  pub data Act : Type 0 where
    spawn_task spawn_essential_task : Task → Act
    disabled_grandpa : Act
    spawn_informant fire_exit shutdown_on_idle : Act

  -- The variable `import_setup`, and the acts so far.
  pub record Local : Type 0 where
    pub import_setup : Option (BlockImport × LinkHalf)
    pub acts : List Act

  abbrev pub fresh : Local
  fresh = record { import_setup = none; acts = [] }

  unfoldable pub act : Act → Effect Local (Unit {0})
  act a = modify (λ s. record s { acts = s.acts ++ a ∷ [] })

  module _ (f : Framework parts) where
    -- The closure that makes the import queue of a full service.
    unfoldable pub make_import_queue :
        (inherent_data_providers : InherentDataProviders)
        → Client
        → Option SelectChain
        → Pool
        → Effect Local Queue
    make_import_queue providers client select_chain pool = do
      chain ← or_fail select_chain select_chain_required
      setup ← ask (f.block_import client chain)
      slot ← ask (f.get_or_compute client)
      import_queue ← ask (
          f.import_queue (record {
            slot_duration = slot;
            block_import = setup.0;
            justification_import = some setup.0;
            finality_proof_import = none;
            client = client;
            inherent_data_providers = providers;
            transaction_pool = some pool;
          }))
      modify (λ s. record s { import_setup = some setup })
      pure import_queue

    -- `new_full_start!`
    unfoldable pub new_full_start :
        Configuration parts → Effect Local (Builder × InherentDataProviders)
    unfolding make_import_queue
    new_full_start config = do
      modify (λ s. record s { import_setup = none })
      let providers = f.new_providers
      b0 ← ask (f.new_full_builder config)
      b1 ← ask (f.with_select_chain (λ backend. fine (f.longest_chain backend)) b0)
      b2 ← ask (f.with_transaction_pool (λ c client. fine (f.new_pool c client)) b1)
      b3 ← f.with_import_queue Local (make_import_queue providers) b2
      pure (b3, providers)

    -- The authoring of blocks.
    unfoldable pub start_authoring :
        (force_authoring : Bool)
        → BlockImport
        → (inherent_data_providers : InherentDataProviders) → Service
        → Effect Local (Unit {0})
    unfolding act
    start_authoring force import providers service = do
      let client = f.client_of service
      chain ← or_fail (f.select_chain_of service) select_chain_required
      slot ← ask (f.get_or_compute client)
      aura ← ask (
          f.start_aura (record {
            slot_duration = slot;
            client = client;
            select_chain = chain;
            block_import = import;
            proposer = (client, f.pool_of service);
            network = f.network_of service;
            inherent_data_providers = providers;
            force_authoring = force;
            keystore = f.keystore_of service;
          }))
      act (spawn_essential_task aura)

    -- The `match` on who takes part in finality.
    unfoldable pub start_finality :
        (is_authority disable_grandpa : Bool)
        → GrandpaConfig parts
        → LinkHalf
        → (inherent_data_providers : InherentDataProviders) → Service
        → Effect Local (Unit {0})
    unfolding act
    start_finality false false config link providers service = do
      let network = f.network_of service
      observer ← ask (f.run_grandpa_observer config link network (f.on_exit_of service))
      act (spawn_task observer)
    start_finality true false config link providers service = do
      voter ← ask (
          f.run_grandpa_voter (record {
            config = config;
            link = link;
            network = f.network_of service;
            inherent_data_providers = providers;
            on_exit = f.on_exit_of service;
            telemetry_on_connect = some (f.telemetry_of service);
          }))
      act (spawn_essential_task voter)
    start_finality _ true config link providers service = do
      ask (f.setup_disabled_grandpa (f.client_of service) providers (f.network_of service))
      act disabled_grandpa

    unfoldable pub build_full : Builder → Reply Service
    build_full b = elim (f.with_network_protocol (fine node_protocol) b) [
      | refused e ↦ refused e
      | fine b1 ↦
          elim (f.with_finality_proof_provider
            (λ client backend. fine (f.proof_provider backend client)) b1) [
              | refused e ↦ refused e
              | fine b2 ↦ f.build b2
            ]
    ]

    unfoldable pub grandpa_config : (name : String) → Service → GrandpaConfig parts
    grandpa_config name service = record {
      gossip_duration = 333;
      justification_period = 512;
      name = some name;
      keystore = some (f.keystore_of service);
    }

    -- `if b { ... }`
    abbrev pub start_where : Bool → Effect Local (Unit {0}) → Effect Local (Unit {0})
    start_where true m = m
    start_where false m = pure tt

    -- `new_full` after the `expect`.
    unfoldable pub start_tasks :
        Configuration parts
        → Builder
        → (inherent_data_providers : InherentDataProviders) → BlockImport × LinkHalf
        → Effect Local Service
    unfolding build_full start_authoring grandpa_config start_finality
    start_tasks config builder providers (import, link) = do
      let is_authority = f.is_authority config.roles
      service ← ask (build_full builder)
      start_where is_authority (start_authoring config.force_authoring import providers service)
      start_finality is_authority config.disable_grandpa (grandpa_config config.name service) link
          providers service
      pure service

    unfoldable pub new_full : Configuration parts → Effect Local Service
    unfolding new_full_start start_tasks
    new_full config = do
      start0 ← new_full_start config
      let (builder, providers) = start0
      taken ← gets (λ s. s.import_setup)
      modify (λ s. record s { import_setup = none })
      setup ← expect taken
      start_tasks config builder providers setup

    -- The closure that makes the import queue of a light service.
    unfoldable pub make_light_queue :
        (inherent_data_providers : InherentDataProviders)
        → Client
        → Backend
        → Option FetchChecker
        → Reply (Queue × RequestBuilder)
    make_light_queue providers client backend fetch_checker = elim fetch_checker [
      | none ↦ refused (message "Trying to start light import queue without active fetch checker")
      | some checker ↦ elim (f.light_block_import client backend checker) [
        | refused e ↦ refused e
        | fine import ↦ elim (f.get_or_compute client) [
          | refused e ↦ refused e
          | fine slot ↦
              elim (f.import_queue (record {
                slot_duration = slot;
                block_import = import;
                justification_import = none;
                finality_proof_import = some import;
                client = client;
                inherent_data_providers = providers;
                transaction_pool = none;
              })) [ refused e ↦ refused e | fine queue ↦ fine (queue, f.request_builder import) ]
        ]
      ]
    ]

    unfoldable pub new_light : Configuration parts → Effect Local Service
    unfolding make_light_queue build_full
    new_light config = do
      let providers = f.new_providers
      b0 ← ask (f.new_light_builder config)
      b1 ← ask (f.with_select_chain (λ backend. fine (f.longest_chain backend)) b0)
      b2 ← ask (f.with_transaction_pool (λ c client. fine (f.new_pool c client)) b1)
      b3 ← ask (f.with_import_queue_and_fprb (make_light_queue providers) b2)
      ask (build_full b3)
