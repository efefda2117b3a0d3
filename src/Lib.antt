-- ===== src/Lib.antt =====
-- A model of the keeper of Stonkfolio, the program that collects the pool fees of a launched
-- coin, buys a basket of tokens with them and pays that basket out to the coin's holders in
-- rounds.
--
-- The parts. `Prelude` holds what all modules share: Boolean tests on the native numbers, lists,
-- integers (`Prelude.Int`), sums and floors (`Prelude.Sums`), stable sorting as `Array.sort` does
-- it (`Prelude.Sort`), maps with text keys (`Prelude.Maps`, `Prelude.Entries`), sublists
-- (`Prelude.Picked`) and the result of a function that may throw (`Prelude.Results`).
--
-- `FeeSplit` is keeper/feeSplit.ts, `splitByBps` and `splitRevenue`. `Ledger` is the fee buckets
-- of keeper/state.ts with `debit`, `reconcileReserve`, `backoffSecs` and `shouldAutoPush` of
-- keeper/round/operations.ts. `Liquidity` is keeper/liquidity.ts. `Send` is `resolveSignature`
-- and `lamportChange` of lib/send.ts. `Journal` is the journal of pending transactions in
-- keeper/coin.ts, which settles against the outcomes of `Send`, splits revenue by `FeeSplit` and
-- charges costs to the `Ledger`.
--
-- `Round` is keeper/round: `Round.Types` is types.ts; `Round.Median`, `Round.Holders`,
-- `Round.Remainder`, `Round.Asset` and `Round.Allocate` are the parts of allocate.ts in its
-- order: the median price, the holder table, the largest remainder, one asset, and the whole
-- allocation. Each has child modules with its theorems.
--
-- `Round.Trigger` is trigger.ts, `Round.Likely` is `countLikelyEligible` of operations.ts,
-- `Round.Policy` is policy.ts, and `Round.Trees` is trees.ts, which builds the trees of `Merkle`
-- over what `Round.Allocate` returns. `Merkle` is lib/merkle.ts: the bytes that are hashed for a
-- leaf (`Merkle.Encoding`), and the tree and its proofs (`Merkle.Climb`).
--
-- `Store` is the state of one coin in keeper/state.ts with `creditInventory`. `Tokens` is
-- `vetMintData` of lib/tokens.ts; its loop over the extensions has the number of bytes as fuel,
-- and every turn drops four bytes at least.
--
-- `Engine` is keeper/round/engine.ts, one step of the payout rounds at a time: `Engine.Opening`
-- opens and abandons rounds, `Engine.Collect` takes snapshots and closes the window,
-- `Engine.Seed` has the seed recorded, `Engine.Buy`, `Engine.Settle` and `Engine.Basket` buy the
-- basket, `Engine.Reserve` reserves the inventory, `Engine.Commit` prepares and commits,
-- `Engine.Activate`, `Engine.Push` and `Engine.Queue` pay, `Engine.Finish` ends a round,
-- `Engine.Close` recovers what expired, `Engine.Costs` books and estimates costs, and
-- `Engine.Step` is `step` itself. `Memory` is the state on disk with the round that the process
-- has confirmed as open; a step that throws leaves what it saved and what it confirmed.
--
-- What a step of the engine asks of the node, the distributor, the holder index, the swap service
-- and the publisher is an answer, a value or the text of an error, in the record `Outside` of
-- that step; a call that a step makes twice is numbered. What `prepareRound` makes of a round is
-- such an answer too. Of a report only its kind is kept, since only its first word is read; error
-- texts are kept whole, where the code cuts what it records of them, and the reasons that are
-- recorded for the operator are without the numbers in them; the regular expressions on them that
-- are more than a few words are parameters. The measured effect of a landed transaction is looked
-- up with `lamportChange`; a step in which the node fails to answer that lookup is not modelled.
--
-- Amounts are big integers in the code and unbounded here. What the code tests for a sign is an
-- integer, and a natural number from there on. A JavaScript number that the code tests with
-- `Number.isInteger` is a `Number`; others are whole. A throw is the `err` of a result. A map
-- keeps its entries in the order of their first insertion, as a JavaScript `Map` does.
--
-- Loops are structural recursion over the lists that the code walks, and the passes over an asset
-- recur on their number, where the code counts its rounds itself (the six attempts of
-- `lamportChange`, `maxMinLeafPasses`). The constructor of a Merkle tree has fuel for as many
-- levels as there are leaves, and each level has half the nodes of the one below, rounded up.
--
-- Parameters: `Keys` stands for `PublicKey` of @solana/web3.js (which texts are keys, on which
-- others its constructor throws; and of a key its bytes and the curve test), `Rpc` for the
-- answers of a node, and the digest of `Merkle` for sha256. `Client`, `Sources`, `Sender`,
-- `Wallet`, `Mints` and `Accounts` of the engine stand for the answers of the outside. Where a
-- theorem supposes something of such an answer it is one of its hypotheses: that the program's
-- next round id is not the id of a round that is being paid (`IsFresh`), that every transaction
-- is accepted, that texts are keys, that a mint is vetted, or what one answer is.
--
-- Not modelled: requests to nodes and web services, the files, logging, the pool clients, the
-- generated client of the distributor, and the on-chain program in Rust.
pub mod Engine
pub mod FeeSplit
pub mod Journal
pub mod Ledger
pub mod Liquidity
pub mod Merkle
pub mod Prelude
pub mod Round
pub mod Send
pub mod Store
pub mod Tokens
