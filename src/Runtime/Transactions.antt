-- ===== src/Runtime/Transactions.antt =====
-- `CreateTransaction` in substrate-kitties/runtime/src/lib.rs: how a call of a worker becomes a
-- signed transaction.
use mathlib.Core.Option.{bind as ◌>>=◌}
use archer_in_zoo.Prelude.{ℕ, ◌^◌, ◌≡◌, Bool, true, Option, none, some, if◌then◌else◌}

-- The `SignedExtra` of a transaction: the parts that have data. Those of the version, the genesis and
-- the weight have none.
pub record SignedExtra (Era : Type 0) : Type 0 where
  pub era : Era
  pub nonce : ℕ
  pub tip : ℕ

-- The framework's payloads, eras, signatures and addresses. An account is named by the key that signs
-- for it: both `Public` and `AccountId` are the `Signer` of the signature. `payload` reads what is signed
-- besides the call and the extra from the chain, and fails where the chain has no such data.
pub record Payloads (Call Era Payload Signature Account Address : Type 0) : Type 0 where
  pub mortal : (period current : ℕ) → Era
  pub payload : Call → SignedExtra Era → Option Payload
  pub deconstruct : Payload → Call × SignedExtra Era
  pub sign : (public : Account) → Payload → Option Signature
  pub verify : (signer : Account) → Payload → Signature → Bool
  pub unlookup : Account → Address
  pub lookup : Address → Option Account

module _ {Call Era Payload Signature Account Address : Type 0}
    (f : Payloads Call Era Payload Signature Account Address) where
  abbrev pub Transaction : Type 0
  Transaction = Call × (Address × Signature × SignedExtra Era)

  -- The block number is a `u32`, which the conversion to `u64` leaves as it is.
  unfoldable pub create_transaction :
      (block_number : ℕ) → Call → (public account : Account) → (index : ℕ) → Option Transaction
  create_transaction block_number call public account index = do
    let extra : SignedExtra Era = record {
      era = f.mortal (2 ^ 8) block_number;
      nonce = index;
      tip = 0;
    }
    raw_payload ← f.payload call extra
    signature ← f.sign public raw_payload
    let address = f.unlookup account
    let (call', extra') = f.deconstruct raw_payload
    some (call', (address, signature, extra'))

  -- Who has signed a transaction, as whoever receives it finds out: the account that its address names,
  -- if the signature is that account's on the payload that its call and its extra make.
  abbrev pub signer : Transaction → Option Account
  signer (call, (address, signature, extra)) = elim (f.lookup address) [
    | none ↦ none
    | some account ↦ elim (f.payload call extra) [
      | none ↦ none
      | some p ↦ if f.verify account p signature then some account else none
    ]
  ]

  -- What is documented: a payload comes apart into what it was made from, the address of an account
  -- names it, and a signature is accepted for the account whose key made it and for no other.
  pub record PayloadLaws : Type 0 where
    pub deconstructed :
        (call : Call) (extra : SignedExtra Era) (p : Payload)
        → f.payload call extra ≡ some p
        → f.deconstruct p ≡ (call, extra)
    pub looked_up : (account : Account) → f.lookup (f.unlookup account) ≡ some account
    pub verified :
        (public : Account) (p : Payload) (signature : Signature)
        → f.sign public p ≡ some signature
        → f.verify public p signature ≡ true
    pub not_forged :
        (public account : Account) (p : Payload) (signature : Signature)
        → f.sign public p ≡ some signature
        → f.verify account p signature ≡ true
        → account ≡ public
