-- ===== src/Lib.antt =====
-- Verification library of the OCash SDK, a TypeScript client of a shielded pool: UTXOs that only their
-- owner can read are commitments in an on-chain Merkle tree; the client keeps them in a store, follows
-- the tree, and plans transfers and withdrawals.
--
-- The parts and their files:
-- - Prelude: tests on numbers, lists, the stable sort, `bigint` as integers, JavaScript's `Map` in
--   insertion order, results (a value or a thrown error), and actions, which also change a state.
-- - Types: the records that the components exchange (src/types.ts).
-- - Crypto: src/crypto/poseidon2.ts with its round keys (Crypto.Keys, Crypto.Poseidon2), and of
--   src/crypto/cryptoToolkit.ts `commitment` and `poolId` (Crypto.Records) and `createRecordOpening`
--   (Crypto.Openings), which run on concrete numbers. src/crypto/babyJubjub.ts is Crypto.Modular (inverse,
--   power and square root modulo a number), Crypto.FixedBytes (its bytes) and Crypto.BabyJubJub (the
--   curve, its points and keys); the tests run it on the real curve.
-- - Merkle: src/merkle/zeroHashes.ts (Merkle.Zeros) and of src/merkle/merkleEngine.ts `hashPair`,
--   `insertSubtreeRoot` (Merkle.Insert), `buildSubtree` (Merkle.Subtree) and `buildLocalProofPath`
--   (Merkle.Proof). The specification is a complete binary tree over a function (Merkle.Tree);
--   Merkle.Represents says when the nodes of storage stand for such a tree, and Merkle.Persistent is the
--   refinement. A node is named by a version and a level, as in its text id. Merkle.Ingest is the merge of
--   pending leaves in `ingestEntryMemos` and the rollbacks, on one chain and the memory store's maps; its
--   children say what a merge leaves in storage, also after a rollback. Merkle.Hydration has
--   `hydrateFromStorage` and the whole `ingestEntryMemos` with the stored leaves, Merkle.Requests
--   `getProofByCids` with its fallback from the local tree to the proof service (its children say what an
--   answer is), and Merkle.Inputs the witnesses and input secrets, over Crypto.Nullifiers.
-- - Planner: src/planner/planner.ts. Planner.Select has the coin selection, Planner.Fees `recordsFee`,
--   `buildFeeSummary` and `estimateRecords`, Planner.Plan and Planner.Generate `buildTransferPlan` and
--   `plan`, Planner.Estimate `estimate` and `estimateMax`. What the planner calls (assets, wallet, keys,
--   memos, the proof bridge, the relayer) is the record of functions Planner.Services.Services, on which
--   no theorem assumes anything but what it says.
-- - Ops: src/ops/pickMerkleRootIndex.ts (Ops.RootIndex), with the read of the contract as a parameter.
-- - Store: src/store/internal/*Query.ts (Store.Query, Store.Operations), src/store/memoryStore.ts
--   (Store.Memory and its children) and src/store/internal/persistedWalletState.ts (Store.Persisted). A
--   method is a function from the store to the next store; where the code extends an array in place and
--   then throws, the model keeps what was pushed.
-- - Sync: src/sync/syncEngine.ts. Sync.Options and Sync.Retries are the options and `withRetries`,
--   Sync.Memos the helpers on pages (and the rows of src/sync/entryClient.ts), Sync.State the status, the
--   events and the two interfaces `Ports` (storage, wallet, Merkle engine) and `Entry` (the service's
--   answers and the abort signals, as functions of the number of requests made), Sync.Pages the memo and
--   the nullifier loop, Sync.Engine `syncChain`, and Sync.Polling `start`, `stop`, the timer and
--   `syncOnce` as events. Sync.Applied, Sync.Marked and Sync.Told follow what the wallet is told;
--   Sync.Log and Sync.Follows run the memo loop against a service that holds a log.
-- - Wallet: src/wallet/walletService.ts (Wallet.Service, Wallet.Memos) over the memory store, with
--   `nullifier` of src/crypto/cryptoToolkit.ts and `decodeMemoForOwner` of src/memo/memoKit.ts in
--   Crypto.Nullifiers. Wallet.Ports fills the interface of the sync engine with wallet and store.
--
-- The planner selects among the UTXOs that the store lists, makes its outputs by Crypto, and the Merkle
-- engine puts its nodes into the store's maps (`put_nodes` is the store's own loop). The sync engine
-- gives pages to the wallet, which puts its UTXOs into the store. Code that changes state and throws is
-- an `Action` (Prelude.Actions), with the rules of a program logic for its proofs.
--
-- Bounds and fuel: the `while` of `recordsFee` runs on the number of records as fuel, which is enough
-- since each round that continues shortens the list, and that of `ingestEntryMemos` on the number of
-- pending leaves, of which each round takes 32 off. `createRecordOpening` takes its random draws as a
-- list, one for each attempt. The `while (true)` loops of the sync engine run on fuel and throw
-- `still_running` when none is left; against a service with a log it is enough fuel to have one more
-- than what is left of the log, since each round that continues moves the offset. The Merkle theorems
-- take trees up to depth 32 and batch indices below 2 ^ 32, the reach of JavaScript's shifts; the
-- shifts of `buildLocalProofPath` are signed ones of 32 bits, and its theorem takes leaves below 2 ^
-- 31. Numbers of type `bigint` are unbounded. `extgcd` runs on its first argument as fuel, which falls
-- with each call, and `modPow` and the multiples of a point on the exponent, which halves. The searches
-- of `tonelliShanks` end only for a suitable modulus, so that `mod_sqrt` has a result for running on;
-- for a modulus as `IsOddPrime` says the fuel (the modulus for the search of a non-residue, the number
-- of halvings of p - 1 for the loop) is enough.
--
-- Not modelled: key derivation and memo encryption, the other stores, the wasm bridge, HTTP clients, and
-- `parsePlanInput`, which checks an untyped object; roots of more than 32 bytes from a contract reader;
-- two hydrations of the Merkle engine at a time. Concurrency between asynchronous calls is not
-- modelled, except for the order of the sync engine's events: a call runs to its end before the next one.
pub mod Crypto
pub mod Merkle
pub mod Ops
pub mod Planner
pub mod Prelude
pub mod Store
pub mod Sync
pub mod Types
pub mod Wallet
