-- ===== src/Lib.antt =====
-- Verification of the Subhost workspace: a Rust node for a demonstration chain, in crates under
-- crates/. A transaction is signed and hashed (subhost-core), waits in the pool (subhost-mempool),
-- is proposed in a block and executed on the accounts (subhost-state); validators agree on blocks
-- through a DAG and HotStuff certificates, with stakes that can be slashed (subhost-consensus);
-- packets of other chains pass through the packet state machine (subhost-ibc). A single node takes
-- signed requests, seals each transaction into a block (subhost-rpc) and writes its ledger to a file
-- (subhost-storage), from which it starts again (subhost-node); the faucet sends it transfers
-- (subhost-faucet).
--
-- Which file models which part, each function under the name that it has in the code:
--   Base.antt (with Base/): numbers, words, results and the state monad, sorting.
--   Map.antt (with Map/): HashMap and BTreeMap as association lists. What is proved of a hash map
--     does not depend on the order of its entries, unless the statement says so.
--   Core.antt: crates/subhost-core/src/lib.rs, types, fee and hashes; Core/Signature.antt is
--     TransactionSignature, and Core/Genesis.antt is GenesisConfig and its checks.
--   State.antt (with State/): crates/subhost-state/src/lib.rs.
--   Mempool.antt (with Mempool/): crates/subhost-mempool/src/lib.rs.
--   Consensus.antt: ConsensusConfig of crates/subhost-consensus/src/lib.rs; Consensus/Registry.antt is
--     ValidatorRegistry, Consensus/HotStuff.antt is QuorumCertificate and HotStuff, and
--     Consensus/Dag.antt is DAGVertex and DAG.
--   Consensus/Staking.antt (with Consensus/Staking/): crates/subhost-consensus/src/staking.rs.
--   Ibc.antt (with Ibc/): crates/subhost-ibc/src/lib.rs; Ibc/Names.antt is trim and the channel names.
--   Storage.antt: LedgerStore of crates/subhost-storage/src/lib.rs; Storage/Chain.antt is
--     validate_chain, Storage/Spec.antt what a valid ledger is.
--   Rpc.antt: RpcState of crates/subhost-rpc/src/lib.rs; Rpc/Wire.antt is the text of requests and
--     answers, Rpc/Server.antt the methods of the server, with from_hex and from_public_key of
--     crates/subhost-core/src/lib.rs. Rpc/Ledger.antt says what a sound node is, Rpc/Bank.antt what
--     its clients see.
--   Node.antt: bootstrap of crates/subhost-node/src/lib.rs, with GenesisConfig::load.
--   Faucet.antt: crates/subhost-faucet/src/lib.rs; Faucet/Request.antt is a request for funds.
--   Wallet.antt: crates/subhost-wallet/src/lib.rs, with the printing of addresses of
--     crates/subhost-core/src/lib.rs.
--   Network.antt: crates/subhost-network/src/lib.rs, the messages and the loop that relays them.
--   Tests.antt (with Tests/): the results at concrete inputs, and runs of the code.
--
-- How state and operations correspond: a struct is a record, an enum a data type, and a method on
-- `&mut self` that may fail is a function from the state to a result and the state afterwards,
-- so that what a failing call has already written stays written. A field that the code calls
-- `data` is called `payload` here. Integers are natural numbers: an addition that the code checks
-- is compared with the largest word, a saturating one is cut off there, and a subtraction that the
-- code guards keeps its guard. Hashes and addresses are the numbers that their bytes spell. Logging
-- has no effect on the state and is left out.
--
-- The node's methods hold the commit lock from their first line to their last, so that a call is
-- one step. A request to the faucet waits for the submission lock and for each answer of the node,
-- and other requests go on meanwhile: what they do to the cooldown ledger between two steps is any
-- list of claims, releases and sweeps (Reply and Upstream in Faucet/Request.antt). The disk is the
-- content of the ledger file, if there is one.
--
-- Third-party code is a parameter: BLAKE3 and the canonical encoding (Digest, Codec), bincode on the
-- ledger (FileFormat), BLS signatures (Bls), ed25519 and hex (Crypto), scrypt and AES-GCM (Vault),
-- JSON (Json), libp2p and the channel to the application (Transport), and the clock, whose reading
-- is an argument. So are the answers of the operating system to each call (WriteIo, ReadIo, BootIo,
-- SaveIo) and those of the node to the faucet (Upstream). What is assumed of them is named where it
-- is used: ReadsBack, that the decoders give back what the encoders wrote of one ledger; HasNoDouble
-- and HasNoTwin, that a new transaction or block does not share its hash with another one of the
-- chain; IsBoundedQueue, that a channel takes a message behind the others and below its capacity.
--
-- Loops are recursions on the list that is walked. The one bound is that of `digits`, the decimal
-- digits of a number: its fuel is one more than the number, which is enough since every step divides
-- by ten (`read-digits` in Ibc/Names.antt reads every number back).
--
-- The digits of a quantity have the fuel 32, which is enough for 128 bits (`limit_u128` in
-- Rpc/Wire/Quantity.antt).
--
-- Not modelled: crates/subhost-crypto (curve libraries), subhost-cli, subhost-metrics,
-- subhost-telemetry and subhost-bench (input and output, and wiring), the explorer and the scripts;
-- in subhost-core, the saving of files; in subhost-rpc, the rendering of answers as JSON; in
-- subhost-node, the running of the servers; in subhost-faucet, the status page and the key file; in
-- subhost-network, the construction of the swarm; the HTTP layers.
pub mod Base
pub mod Map
pub mod Core
pub mod State
pub mod Mempool
pub mod Consensus
pub mod Ibc
pub mod Storage
pub mod Rpc
pub mod Node
pub mod Faucet
pub mod Wallet
pub mod Network
pub mod Tests
