-- ===== src/Lib.antt =====
-- The consensus-critical core of nightfall, a Mimblewimble chain with stealth outputs: how a block
-- is judged and written, what it does to the supply, and how difficulty and rewards are set.
--
-- The parts and how they interact. A ledger (Ledger) holds a set of unspent outputs (Utxo), the sum
-- of all kernels and two supply counters. A block body (Body) holds inputs and kernels (Tx, Crypto)
-- and outputs. `apply_block` checks a body against the ledger, projects the sums, and only then
-- writes. The chain above it (Chain) asks Emission for the subsidy, Difficulty for the target and Pow
-- whether a hash meets it, gives the body to the ledger, compares the roots, and keeps headers, bodies
-- and what undoes them; fork choice builds a second chain and takes its place when that has more work.
-- The mempool (Mempool) holds transactions until a block of the chain takes them.
--
-- Beside the node stands a wallet (Wallet). It reads blocks of the chain, keeps the outputs that are
-- its own and the history of what it sent and received, chooses coins for a payment, and carries a
-- till of invoices (Counter) and the recovery records of swaps (SwapJournal). Amounts that a person
-- types (AmountInput) and the numbers and escapes of a payment request (PaymentRequest) are read
-- before anything is built. Blocks travel in messages of bounded size (P2p).
--
-- The files and the code they model:
--   Types       crates/nightfall-types/src/lib.rs
--   Emission    `EmissionSchedule` of crates/nightfall-consensus/src/lib.rs
--   Pow         `meets_difficulty` and `block_work` of crates/nightfall-crypto/src/pow.rs
--   Difficulty  crates/nightfall-consensus/src/difficulty.rs
--   Crypto      the verifying side of crates/nightfall-crypto/src: lib.rs (Hashing, Domain),
--               schnorr.rs, commit.rs and rangeproof.rs (Commit), kernel.rs, binding.rs, and the
--               outputs of stealth.rs (Output)
--   Utxo        crates/nightfall-ledger/src/utxo.rs
--   Tx          crates/nightfall-ledger/src/tx.rs
--   Body        crates/nightfall-ledger/src/aggregate.rs
--   Ledger      crates/nightfall-ledger/src/lib.rs: Checks has the checks of `apply_block` in its
--               order, Apply puts them together, Replay is `apply_block_state_only`, Admission is
--               `check_tx_acceptable`
--   Chain       `Chain` of crates/nightfall-consensus/src/lib.rs: Apply is `apply_block_inner` and
--               `apply_block_from_own_disk`, Window the bodies in hand and `prune_keep`, Suffix the
--               suffix reorganisation, Rebuild and Reorg the rebuilding and the fork choice, Template
--               `build_template`
--   Mempool     `Mempool` of crates/nightfall-consensus/src/lib.rs
--   Counter     crates/nightfall-wallet/src/counter.rs
--   SwapJournal crates/nightfall-wallet/src/swap_journal.rs
--   Wallet      crates/nightfall-wallet/src/lib.rs: Coins is `select_coins_at` and the reservations,
--               Till the invoices, Sends the outgoing payments, Gather, Reconcile and Scan the parts
--               of `scan_blocks_inner` and the checks before it
--   AmountInput crates/nightfall-wallet/src/amount_input.rs
--   PaymentRequest  numbers, escapes and small reads of
--               crates/nightfall-wallet/src/payment_request.rs
--   P2p         `BoundedBuffer` and `fit_blocks_response` of crates/nightfall-p2p/src/lib.rs
--   Common      lists, words, numerals, texts, sorted maps and results that the parts share
-- A function keeps the name it has in Rust; a method on `&mut self` returns the new state beside its
-- result, and `Result` and `Option` are values. The loops are structural recursion over lists,
-- but for the Merkle root of the set, which climbs on fuel: the number of its leaves, which is enough
-- since every level is shorter than the one below it, and the binary search of
-- `largest_fitting_prefix`, whose fuel is the number of blocks, which is enough since every round
-- narrows the range. A number is printed with fuel for twenty digits, as many as 64 bits need.
--
-- Machine words are numbers. Where the code uses checked, saturating or wrapping operations, their
-- bound is written out, and other arithmetic stays in range or wraps as in a release build. An array
-- of 32 bytes is the number it spells with the most significant byte first, and a `BTreeMap` is the
-- sorted list of its entries.
--
-- Points, scalars, blake3, argon2, the JSON of the genesis and range proofs come from libraries. They
-- are a parameter, the record `Primitives` of Crypto, with the laws that those libraries document:
-- points are a commutative group with a decidable equality, and compressed points decompress to
-- themselves. Crypto/Toy gives a concrete such record over the integers, at which the tests evaluate.
--
-- A chain's `NIGHTFALL_NO_ASSUME_VALID` and the clock are arguments. Errors that the source turns into
-- text keep the error itself, and a panic of the retarget is an error of its own, `panicked`.
--
-- `build_coinbase` draws random keys; what it returned is an argument of `build_template`.
--
-- The wallet's texts are lists of code points, those of the swap journal and of payment requests lists
-- of bytes. `hex`, `serde_json`, the check that bytes are UTF-8, and what writing the wallet's file
-- comes to are arguments. So is `scan_output`, what scanning finds in one output, which opens it with
-- ciphers.
--
-- Not modelled: the mining loop, signing, scanning of a single output and building of transactions,
-- which draw randomness or use ciphers; storage, sockets, the node's threads and the front ends, which
-- are I/O; the wallet's vault, receipts, light-client pages and import of state, and the whole line of
-- a payment request.
pub mod Common
pub mod Types
pub mod Emission
pub mod Pow
pub mod Difficulty
pub mod Crypto
pub mod Utxo
pub mod Tx
pub mod Body
pub mod Ledger
pub mod Chain
pub mod Mempool
pub mod Counter
pub mod SwapJournal
pub mod Wallet
pub mod AmountInput
pub mod P2p
pub mod PaymentRequest
