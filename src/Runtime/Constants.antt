-- ===== src/Runtime/Constants.antt =====
-- The constants of substrate-kitties/runtime/src/lib.rs, as far as they are numbers.
use archer_in_zoo.Prelude.{ℕ, ◌*◌, ◌/◌, ◌<◌, ◌^◌, ◌≡◌, refl, arith}

abbrev pub millisecs_per_block : ℕ
millisecs_per_block = 6000

abbrev pub slot_duration : ℕ
slot_duration = millisecs_per_block

abbrev pub minutes : ℕ
minutes = 60000 / millisecs_per_block

abbrev pub hours : ℕ
hours = minutes * 60

abbrev pub days : ℕ
days = hours * 24

abbrev pub epoch_duration_in_blocks : ℕ
epoch_duration_in_blocks = 10 * minutes

abbrev pub primary_probability : ℕ × ℕ
primary_probability = (1, 4)

abbrev pub block_hash_count : ℕ
block_hash_count = 250

abbrev pub maximum_block_weight : ℕ
maximum_block_weight = 1000000

abbrev pub maximum_block_length : ℕ
maximum_block_length = 5 * 1024 * 1024

abbrev pub minimum_period : ℕ
minimum_period = slot_duration / 2

abbrev pub existential_deposit : ℕ
existential_deposit = 500

abbrev pub transfer_fee : ℕ
transfer_fee = 0

abbrev pub creation_fee : ℕ
creation_fee = 0

abbrev pub transaction_base_fee : ℕ
transaction_base_fee = 0

abbrev pub transaction_byte_fee : ℕ
transaction_byte_fee = 1

-- A day of blocks lasts a day, and its number of blocks is a `u32`.
day_test : (days * millisecs_per_block ≡ 24 * 60 * 60 * 1000) × (days < 2 ^ 32)
day_test = (refl, omega arith)
