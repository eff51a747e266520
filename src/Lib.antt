-- ===== src/Lib.antt =====
-- Verification of the substrate-kitties runtime: kitties with DNA that accounts create, breed and
-- transfer, and auctions in which such items are sold for locked balances.
--
-- The program's parts, with paths under substrate-kitties/runtime/src/, and the files that model
-- them:
--
-- linked_item.rs keeps doubly linked lists in a storage map. LinkedItem has its functions under
-- their own names (`remove` is split into the lookup and `bypass`); LinkedItem/Represents says
-- which list a storage stands for.
--
-- kitties.rs is the module of kitties. Kitties has its storage as the record `State`, one function
-- per function of the source, and the three calls `create`, `breed` and `transfer`.
-- Kitties/Registry is its abstract view, a count, the kitties and one list per account;
-- Kitties/Refinement and Kitties/Calls relate the operations and the calls, Kitties/History the
-- histories of calls. Kitties/Dna is about `combine_dna` and the loop of `do_breed`. Kitties/Items
-- is the `ItemTransfer` that it offers.
--
-- traits.rs is the interface through which the auctions use the items. Traits has it as a record of
-- operations, and the laws that a client may rely on.
--
-- auction/mod.rs is the module of auctions. Auction/Types has its data and its storage,
-- Auction/Store the operations on that storage alone, Auction/Funds the locks, the fee and the
-- settlement, Auction/Calls the calls that an account signs, Auction/Passive the two unsigned calls
-- of the authorities' workers, Auction/Offchain the worker and `validate_unsigned`,
-- Auction/Dispatch the calls as data and their histories. A leading `_` of a source name is
-- dropped. What one call writes is a sequence of the steps of Auction/Steps, and the invariants
-- (WellFormed, LifeCycle, Idle) go by induction over the steps. Bids is about
-- `participate_auction`, Settlement about `do_settle_auction`, Accounts about the locks against the
-- bids over histories of calls, Due, Validation, Sweeps and Rounds about the worker and its
-- transactions, Queues about the two working lists, Participants about the accounts that have bid,
-- Leads about the latest bidder against the other bids, Log about the events.
--
-- lib.rs assembles the runtime. Runtime has its outer call, which goes to the kitties, to the
-- auctions with the kitties as their items, or to a module of the framework, and histories of such
-- calls (Runtime/Histories, Runtime/Sales, Runtime/Sellable, Runtime/Highest); Runtime/Transactions
-- has `create_transaction`, and Runtime/Constants and Runtime/Version the constants.
-- Auction/Deliveries and Kitties/Moves say by which calls an item can change hands.
--
-- template.rs is the framework's sample module, modelled by Template. Beside the runtime, under
-- substrate-kitties/: src/chain_spec.rs and `load_spec` of src/cli.rs are modelled by ChainSpec,
-- the search of build.rs by Build, and the choice of the compiler in runtime/build.rs by
-- Build/Wasm.
--
-- The node, in substrate-kitties/src/, starts the runtime's client. Node/Service has service.rs:
-- the macro `new_full_start!`, `new_full` (whose part after the `expect` is `start_tasks`) and
-- `new_light`; Node/Cli has the commands of cli.rs and `run_until_exit`, and Node/Exit the handler
-- of signals as a state machine. Node/Effects is what such a function can do: return, fail or
-- panic, with what it has set; what it asks of the framework with a lasting effect is listed in the
-- state.
--
-- How state and errors are modelled. A storage map is a function from its key to an optional value,
-- and a storage value is a field. A call takes a state and returns a result and a state (Outcome);
-- an error keeps the writes that came before it, as the framework of that time does. Account, item
-- and auction ids are numbers. Numbers wrap round as in a release build where the source adds or
-- subtracts unchecked (Words): ids in 32 bits, balances in 128 bits, moments in 64 bits. Loops are
-- recursions over the list of ids or participants; the loop of `do_breed` has its 16 rounds as
-- fuel, one for each byte; the loop of build.rs runs on fuel, and more than the components of the
-- path is enough.
--
-- What is a parameter, since it is not in the repository: the origin and its checks, the block's
-- random seed and numbers, and the hash (System); the currency and the handler of fees
-- (Auction/Currency); the keys of the authorities, the encoding that they sign, and the time of the
-- aura module (Auction/Passive); the framework's payloads of transactions (Runtime/Transactions),
-- the key pairs of secret phrases and the runtime's code (ChainSpec); whether the pool takes a
-- transaction and whether the node is a validator (Auction/Offchain); the builders, parts and tasks
-- of a node (Node/Framework), the commands and which of two futures ends first (Node/Cli), and the
-- channel of the exit (Node/Exit). What theorems rely on of these is a hypothesis: the laws of
-- Auction/Settlement for the currency (a transfer may lose what it leaves below a minimum balance)
-- and those of Auction/Settlement/Payable on when it moves money, that verification accepts what
-- signing makes, and for its own key alone where a transaction is signed, that an address names its
-- account, that a payload comes apart into its parts, that the builder of a node makes the import
-- queue by a call of its closure, and that a channel takes what is sent exactly while its receiver
-- is there.
--
-- Not modelled: the encoding of storage and of kitties, the types that lib.rs names to the
-- framework's modules and its runtime API, printing and logging, the version text and arguments of
-- the node's main.rs, calls by which root writes other modules' storage or acts for another account
-- (a call of the framework changes the ledger alone), panics inside the framework, and the types
-- that the tests' mock runtimes choose (the unit tests are restated in Kitties/Tests/Links,
-- Template/Tests and Auction/Tests/Mocks).
pub mod Prelude
pub mod Outcome
pub mod System
pub mod Traits
pub mod Words
pub mod LinkedItem
pub mod Kitties
pub mod Auction
pub mod Runtime
pub mod ChainSpec
pub mod Template
pub mod Build
pub mod Node
