-- ===== src/System.antt =====
-- What the modules take from the framework's `system` and `randomness` modules. Account ids are
-- only compared, so they are numbers.
use archer_in_zoo.Prelude.{ℕ, Option, Bool, List}

-- `ensure_signed` gives the signer of an origin, and `ensure_none` accepts an unsigned one.
pub record System (Origin : Type 0) : Type 0 where
  pub ensure_signed : Origin → Option ℕ
  pub ensure_none : Origin → Bool

-- What `random_value` hashes besides the sender: the seed, the extrinsic's index, the block number.
pub record Block : Type 0 where
  pub random_seed : List ℕ
  pub extrinsic_index : Option ℕ
  pub block_number : ℕ

-- The hash `blake2_128` of the encoded payload.
abbrev pub Hash : Type 0
Hash = List ℕ → ℕ → Option ℕ → ℕ → List ℕ
