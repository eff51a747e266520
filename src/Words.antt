-- ===== src/Words.antt =====
-- `u128` and `u64` arithmetic, as a release build does it: `+` and `-` wrap round.
use archer_in_zoo.Prelude.{ℕ, ◌+◌, ◌-◌, ◌%◌, ◌^◌, Option, none, some, ltb, leb, if◌then◌else◌}

abbrev pub balance_mod : ℕ
balance_mod = 2 ^ 128

abbrev pub moment_mod : ℕ
moment_mod = 2 ^ 64

-- Addition and subtraction in words below `m`.
abbrev pub wrapping_add : (m a b : ℕ) → ℕ
wrapping_add m a b = (a + b) % m

abbrev pub wrapping_sub : (m a b : ℕ) → ℕ
wrapping_sub m a b = (a + m - b) % m

-- `checked_add` and `checked_sub` of balances.
abbrev pub checked_add : (a b : ℕ) → Option ℕ
checked_add a b = if ltb (a + b) balance_mod then some (a + b) else none

abbrev pub checked_sub : (a b : ℕ) → Option ℕ
checked_sub a b = if leb b a then some (a - b) else none
