-- ===== src/ChainSpec.antt =====
-- substrate-kitties/src/chain_spec.rs, and `load_spec` of src/cli.rs beside it: the chains that the
-- node knows by name, and the state that each starts from.
pub mod Genesis
pub mod Tests
use Prim.Native.String.{String, ◌++◌ as ◌<>◌}
use text.Mathlib.Text.{◌==◌ as ◌=s=◌}
use mathlib.Core.Option.{bind as ◌>>=◌}
use archer_in_zoo.Prelude.{
  ℕ, ◌^◌, Bool, true, ◌||◌, Option, none, some, List, [], ◌∷◌, map, if◌then◌else◌,
}
use archer_in_zoo.Outcome.{Result, ok, err}

pub data Alternative : Type 0 where
  development local_testnet : Alternative

-- The genesis configuration: each module's part.
pub record GenesisConfig (AccountId AuraId GrandpaId : Type 0) : Type 0 where
  pub code : List ℕ
  pub indices : List AccountId
  pub balances : List (AccountId × ℕ)
  pub vesting : List AccountId
  pub sudo : AccountId
  pub aura : List AuraId
  pub grandpa : List (GrandpaId × ℕ)

-- A chain: its name, its id, and what its genesis builder makes, or nothing where that panics.
pub record Spec (AccountId AuraId GrandpaId : Type 0) : Type 0 where
  pub name : String
  pub id : String
  pub genesis : Option (GenesisConfig AccountId AuraId GrandpaId)
  pub boot_nodes : List String
  pub telemetry : Option String
  pub protocol_id : Option String
  pub properties : Option String
  pub extensions : Option String

-- The framework's key pairs of the three kinds, the public key of a secret phrase if it has one; and
-- the runtime's code, which the build makes.
pub record Pairs (AccountId AuraId GrandpaId : Type 0) : Type 0 where
  pub wasm_binary : List ℕ
  pub account : (phrase : String) → Option AccountId
  pub aura : (phrase : String) → Option AuraId
  pub grandpa : (phrase : String) → Option GrandpaId

-- `Alternative::from`
unfoldable pub alternative_from : String → Option Alternative
alternative_from s =
    if s =s= "dev"
    then some development
    else if (s =s= "") || (s =s= "local")
    then some local_testnet
    else none

-- A phrase without a key makes it panic.
unfoldable pub get_from_seed : {K : Type 0} → (String → Option K) → (seed : String) → Option K
get_from_seed from_string seed = from_string ("//" <> seed)

unfoldable pub get_all :
    {K : Type 0} → (String → Option K) → (seeds : List String) → Option (List K)
unfolding get_from_seed
get_all from_string [] = some []
get_all from_string (seed ∷ seeds) = do
  k ← get_from_seed from_string seed
  ks ← get_all from_string seeds
  some (k ∷ ks)

module _ {AccountId AuraId GrandpaId : Type 0} where
  unfoldable pub testnet_genesis :
      (wasm_binary : List ℕ)
      → (initial_authorities : List (AuraId × GrandpaId)) → (root_key : AccountId)
      → (endowed_accounts : List AccountId) → (enable_println : Bool)
      → GenesisConfig AccountId AuraId GrandpaId
  testnet_genesis wasm_binary initial_authorities root_key endowed_accounts enable_println =
      record {
        code = wasm_binary;
        indices = endowed_accounts;
        balances = map (λ k. (k, 2 ^ 60)) endowed_accounts;
        vesting = [];
        sudo = root_key;
        aura = map (λ x. x.0) initial_authorities;
        grandpa = map (λ x. (x.1, 1)) initial_authorities;
      }

  module _ (p : Pairs AccountId AuraId GrandpaId) where
    unfoldable pub get_authority_keys_from_seed : (seed : String) → Option (AuraId × GrandpaId)
    unfolding get_from_seed
    get_authority_keys_from_seed s = do
      a ← get_from_seed p.aura s
      g ← get_from_seed p.grandpa s
      some (a, g)

    unfoldable pub get_authorities : (seeds : List String) → Option (List (AuraId × GrandpaId))
    unfolding get_authority_keys_from_seed
    get_authorities [] = some []
    get_authorities (seed ∷ seeds) = do
      k ← get_authority_keys_from_seed seed
      ks ← get_authorities seeds
      some (k ∷ ks)

    -- The closure that builds the genesis of one alternative.
    unfoldable pub build_genesis :
        (authorities : List String)
        → (root : String) → (endowed : List String)
        → Option (GenesisConfig AccountId AuraId GrandpaId)
    unfolding get_authorities get_from_seed get_all testnet_genesis
    build_genesis authorities root endowed = do
      initial_authorities ← get_authorities authorities
      root_key ← get_from_seed p.account root
      endowed_accounts ← get_all p.account endowed
      some (testnet_genesis p.wasm_binary initial_authorities root_key endowed_accounts true)

    unfoldable pub load : Alternative → Result (Spec AccountId AuraId GrandpaId)
    unfolding build_genesis
    load development = ok (record {
      name = "Development";
      id = "dev";
      genesis =
          build_genesis ("Alice" ∷ []) "Alice"
            ("Alice" ∷ "Bob" ∷ "Alice//stash" ∷ "Bob//stash" ∷ []);
      boot_nodes = [];
      telemetry = none;
      protocol_id = none;
      properties = none;
      extensions = none;
    })
    load local_testnet = ok (record {
      name = "Local Testnet";
      id = "local_testnet";
      genesis = build_genesis ("Alice" ∷ "Bob" ∷ []) "Alice" (
          "Alice" ∷ "Bob" ∷ "Charlie" ∷ "Dave" ∷ "Eve" ∷ "Ferdie" ∷ "Alice//stash" ∷ "Bob//stash"
          ∷ "Charlie//stash" ∷ "Dave//stash" ∷ "Eve//stash" ∷ "Ferdie//stash" ∷ []);
      boot_nodes = [];
      telemetry = none;
      protocol_id = none;
      properties = none;
      extensions = none;
    })

    unfoldable pub load_spec : (id : String) → Result (Option (Spec AccountId AuraId GrandpaId))
    unfolding alternative_from load
    load_spec id = elim (alternative_from id) [
      | none ↦ ok none
      | some spec ↦ elim (load spec) [ ok s ↦ ok (some s) | err e ↦ err e ]
    ]
