-- ===== src/Node/Framework.antt =====
-- What service.rs takes from the framework: the parts of a node, and the calls that make them. All of
-- it is a parameter; the node's functions see only what these calls answer.
use Prim.Native.String.{String}
use archer_in_zoo.Prelude.{ℕ, ◌≡◌, Bool, Option}
use archer_in_zoo.Node.Effects.{Reply, Effect, done, panicked}

-- The kinds of parts. A block import is as `aura` and the import queue take it, boxed.
pub record Parts : Type 1 where
  pub Roles : Type 0
  pub Client : Type 0
  pub Backend : Type 0
  pub SelectChain : Type 0
  pub PoolConfig : Type 0
  pub Pool : Type 0
  pub BlockImport : Type 0
  pub LinkHalf : Type 0
  pub Queue : Type 0
  pub RequestBuilder : Type 0
  pub FetchChecker : Type 0
  pub InherentDataProviders : Type 0
  pub SlotDuration : Type 0
  pub Network : Type 0
  pub Keystore : Type 0
  pub OnExit : Type 0
  pub Telemetry : Type 0
  pub ProofProvider : Type 0
  pub Builder : Type 0
  pub Service : Type 0
  pub Task : Type 0

-- `NodeProtocol`, which has no fields.
pub data NodeProtocol : Type 0 where
  node_protocol : NodeProtocol

module _ (parts : Parts) where
  open parts use {
    Roles, Client, Backend, SelectChain, PoolConfig, Pool, BlockImport, LinkHalf, Queue,
    RequestBuilder, FetchChecker, InherentDataProviders, SlotDuration, Network, Keystore, OnExit,
    Telemetry, ProofProvider, Builder, Service, Task,
  }

  -- The fields of a configuration that the node reads.
  pub record Configuration : Type 0 where
    pub roles : Roles
    pub force_authoring : Bool
    pub name : String
    pub disable_grandpa : Bool

  -- `grandpa::Config`, its duration in milliseconds.
  pub record GrandpaConfig : Type 0 where
    pub gossip_duration : ℕ
    pub justification_period : ℕ
    pub name : Option String
    pub keystore : Option Keystore

  -- `grandpa::GrandpaParams`; the voting rule is the default one.
  pub record GrandpaParams : Type 0 where
    pub config : GrandpaConfig
    pub link : LinkHalf
    pub network : Network
    pub inherent_data_providers : InherentDataProviders
    pub on_exit : OnExit
    pub telemetry_on_connect : Option Telemetry

  -- The arguments of `aura::start_aura`; those of the proposer are the client and the pool.
  pub record AuraParams : Type 0 where
    pub slot_duration : SlotDuration
    pub client : Client
    pub select_chain : SelectChain
    pub block_import : BlockImport
    pub proposer : Client × Pool
    pub network : Network
    pub inherent_data_providers : InherentDataProviders
    pub force_authoring : Bool
    pub keystore : Keystore

  -- The arguments of `aura::import_queue`.
  pub record QueueParams : Type 0 where
    pub slot_duration : SlotDuration
    pub block_import : BlockImport
    pub justification_import : Option BlockImport
    pub finality_proof_import : Option BlockImport
    pub client : Client
    pub inherent_data_providers : InherentDataProviders
    pub transaction_pool : Option Pool

  pub record Framework : Type 1 where
    pub is_authority : Roles → Bool
    pub is_light : Roles → Bool
    pub new_providers : InherentDataProviders
    -- The builder of a service; what a closure sets is in the state `S` of the caller.
    pub new_full_builder : Configuration → Reply Builder
    pub new_light_builder : Configuration → Reply Builder
    pub with_select_chain : (Backend → Reply SelectChain) → Builder → Reply Builder
    pub with_transaction_pool : (PoolConfig → Client → Reply Pool) → Builder → Reply Builder
    pub with_import_queue :
        (S : Type 0)
        → (Client → Option SelectChain → Pool → Effect S Queue)
        → Builder
        → Effect S Builder
    pub with_import_queue_and_fprb :
        (Client → Backend → Option FetchChecker → Reply (Queue × RequestBuilder))
        → Builder
        → Reply Builder
    pub with_network_protocol : Reply NodeProtocol → Builder → Reply Builder
    pub with_finality_proof_provider :
        (Client → Backend → Reply ProofProvider) → Builder → Reply Builder
    pub build : Builder → Reply Service
    -- What the closures make.
    pub longest_chain : Backend → SelectChain
    pub new_pool : PoolConfig → Client → Pool
    pub proof_provider : Backend → Client → ProofProvider
    pub get_or_compute : Client → Reply SlotDuration
    pub block_import : Client → SelectChain → Reply (BlockImport × LinkHalf)
    pub light_block_import : Client → Backend → FetchChecker → Reply BlockImport
    pub request_builder : BlockImport → RequestBuilder
    pub import_queue : QueueParams → Reply Queue
    -- The parts of a service.
    pub client_of : Service → Client
    pub pool_of : Service → Pool
    pub select_chain_of : Service → Option SelectChain
    pub network_of : Service → Network
    pub keystore_of : Service → Keystore
    pub on_exit_of : Service → OnExit
    pub telemetry_of : Service → Telemetry
    -- The tasks.
    pub start_aura : AuraParams → Reply Task
    pub run_grandpa_observer : GrandpaConfig → LinkHalf → Network → OnExit → Reply Task
    pub run_grandpa_voter : GrandpaParams → Reply Task
    pub setup_disabled_grandpa : Client → InherentDataProviders → Network → Reply (Unit {0})

  -- What is documented of the builder: it makes the import queue by a call of the closure, and does
  -- not go on without one.
  pub record BuilderLaws (f : Framework) : Type 1 where
    pub queued :
        (S : Type 0) (closure : Client → Option SelectChain → Pool → Effect S Queue)
        (b b' : Builder) (s s' : S)
        → f.with_import_queue S closure b s ≡ (done b', s')
        → (client : Client) × (chain : Option SelectChain) × (pool : Pool) × (queue : Queue)
          × (closure client chain pool s ≡ (done queue, s'))
    pub passed_on :
        (S : Type 0) (closure : Client → Option SelectChain → Pool → Effect S Queue) (b : Builder)
        (s : S)
        → (f.with_import_queue S closure b s).0 ≡ panicked
        → (client : Client) × (chain : Option SelectChain) × (pool : Pool) × ((closure client chain
              pool s).0
            ≡ panicked)
