-- ===== src/ChainSpec/Tests.antt =====
-- The development chain, where every phrase is its own key.
use Prim.Native.String.{String}
use archer_in_zoo.Prelude.{none, ◌^◌, refl, some, [], ◌∷◌, map}
use archer_in_zoo.ChainSpec.{GenesisConfig, Spec, Pairs, load_spec}
use archer_in_zoo.ChainSpec.Genesis.{IsFunded, load_spec-IsFunded}

abbrev phrases : Pairs String String String
phrases = record {
  wasm_binary = 0 ∷ [];
  account = λ s. some s;
  aura = λ s. some s;
  grandpa = λ s. some s;
}

abbrev dev_genesis : GenesisConfig String String String
dev_genesis = record {
  code = 0 ∷ [];
  vesting = [];
  indices = "//Alice" ∷ "//Bob" ∷ "//Alice//stash" ∷ "//Bob//stash" ∷ [];
  balances =
      map (λ (k : String). (k, 2 ^ 60))
        ("//Alice" ∷ "//Bob" ∷ "//Alice//stash" ∷ "//Bob//stash" ∷ []);
  sudo = "//Alice";
  aura = "//Alice" ∷ [];
  grandpa = ("//Alice", 1) ∷ [];
}

abbrev dev : Spec String String String
dev = record {
  name = "Development";
  id = "dev";
  genesis = some dev_genesis;
  boot_nodes = [];
  telemetry = none;
  protocol_id = none;
  properties = none;
  extensions = none;
}

load_spec-IsFunded_example : IsFunded dev_genesis
unfolding load_spec mathlib.Core.Option.bind
load_spec-IsFunded_example = load_spec-IsFunded phrases "dev" dev dev_genesis refl refl
