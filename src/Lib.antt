-- ===== src/Lib.antt =====
-- A verification library for bcoin, the full node of the Bitcoin family written in JavaScript.
--
-- The parts that are modelled, and where:
--
-- - lib/script/script.js, `Script.prototype.execute`: the interpreter of scripts. Its local
--   variables are the record `Vm` of Script/Interpreter/Context.antt; the cases of the switch are
--   functions in Script/Interpreter/{Operands,Checks,Switch}.antt, and the loop with the tests
--   before and after is `execute` in Script/Interpreter/Loop.antt. `fromPubkeyhash` stands in
--   Script/Interpreter/P2pkh.antt.
-- - lib/script/stack.js, the array of byte strings: Script/Stack.antt. Its top is at the end of the
--   list, as in the source; negative indices are integers.
-- - lib/script/scriptnum.js: Script/Num.antt. lib/script/common.js and lib/script/opcode.js:
--   Script/Opcodes.antt and Script/Encoding.antt.
-- - lib/utils/binary.js, search and edits of sorted arrays: Utils/Binary.antt.
-- - lib/protocol/timedata.js, the clock adjusted by peers, which keeps its samples by
--   lib/utils/binary.js: Protocol/TimeData.antt.
-- - lib/blockchain/chain.js, `getState` and `getMedianTime`, with the class StateCache of
--   lib/blockchain/chaindb.js: Blockchain/VersionBits.antt and Blockchain/StateCache.antt. An entry
--   with its ancestors is a list; what the database returns is the tail of it. The states of BIP9
--   themselves, without cache, are the relation `StateAt` of Blockchain/VersionBits/States.antt.
-- - lib/coins/coins.js and lib/coins/coinview.js: Coins.antt and Coins/View.antt. Coin entries are
--   shared objects, between the view and its undo list; they lie on a heap, and their places there
--   are the references. The answers of the database come in the order of the inputs. `spendInputs`
--   takes as fuel the number of the inputs, since each of its rounds takes off at least one.
-- - lib/primitives/tx.js: Primitives/Tx.antt, the data and the locktimes, and
--   Primitives/Checks.antt, `checkSanity` and `checkInputs`, which looks its coins up in the view
--   of Coins/View.antt. `verifyFinal`, `getLocks` and `verifyLocks` of lib/blockchain/chain.js
--   stand in Blockchain/Locks.antt.
-- - lib/primitives/merkleblock.js, `fromMatches` and `extractTree`: Primitives/MerkleBlock.antt for
--   the traversals, Primitives/MerkleBlock/Whole.antt for the wholes. Flags are lists of bits.
-- - The difficulty: `getTarget`, `getDGWTarget` and `retarget` of lib/blockchain/chain.js are
--   Blockchain/Retarget.antt; the compact form of targets, lib/protocol/params/consensus.js, is
--   Protocol/Compact.antt. Targets are numbers that are not negative. `getBlockSubsidy` of the same
--   file is Protocol/Subsidy.antt, its fractions of coins exact.
-- - lib/coins/compress.js, the amounts: Coins/Compress.antt. Sums, differences and products are
--   rounded to doubles there; Coins/Compress/Exact.antt has the same numbers without rounding.
-- - lib/wallet/coinselector.js: Wallet/CoinSelector.antt, the fees, the spendable coins and two of the
--   selections, and Wallet/BranchAndBound.antt, `selectBnB`. The fees by size are those of
--   lib/protocol/params/policy.js, Protocol/Policy.antt. Targets are numbers.
-- - lib/golomb: Golomb/Writer.antt and Golomb/Reader.antt, the bits, and Golomb/Filter.antt,
--   `fromItems` and `match` of the block filters. The words of n64 are their values there,
--   and what `readBits` returns is an int32.
-- - lib/net/parser.js and lib/net/framer.js: Net/Parser.antt and Net/Framer.antt. The buffers that
--   are pending are a list of byte strings, and `feed` returns what it emits. `Stream` in
--   Net/Parser/Stream.antt is the same loop over one buffer.
--
-- A byte string is a list of numbers. What a JavaScript call throws is a value: `err` is a
-- ScriptError with its code, `fault` is any other exception. The stack that the source changes
-- in place is returned; when a script throws, what is left on it is not kept.
--
-- Third-party code is a parameter: the 64-bit words of the package n64 (records `N64` and, for
-- filters, `U64`, with the laws `IsU64`), hashes
-- and signatures of bcrypto (record `Crypto`, and `root`, the hash of two nodes), the maps of
-- buffer-map (record `BufferMap`, with the laws `IsMap`), `byteLength` of BN, and what a network
-- gives its parser, hash256 and `fromRaw` of the packets (record `Wire`). The methods of a
-- transaction that the interpreter calls are the record `Tx` of Script/Interpreter/Context.antt.
-- The items of a filter are those that `BufferSet` keeps, and `sipmod64` is an argument. The tests
-- give each a concrete form.
--
-- Bounds: the binary search runs on fuel `length + 1`, which is proved to be enough, up to the
-- 2^31 items at which `>>>` would wrap. The walk of `getState` runs on fuel above the number of
-- entries, which is proved to be enough too. The interpreter needs no fuel: it goes once over
-- the opcodes. The height of a merkle tree is looked for up to the number of leaves, which is
-- proved to be enough. The loop of `feed` runs on fuel `2 * total + 2`, which is proved to be
-- enough, as is the fuel `length + 1` of the binary search over coin pointers; `selectBnB` counts its
-- tries, as in the source. The order that a random sort leaves is a parameter. A filter is read on
-- fuel above the number of its bits, which is proved to be enough for its items. The spacing of the
-- doubles is looked for up to 2^64, which is enough for numbers below 2^117. A read of an array
-- out of range gives `undefined`; where the source uses it, 256
-- stands for it in scripts, and a reader of 32-bit words and of leaves stays inside its array.
--
-- Not modelled: parsing and printing of scripts, the script templates but one, `verify`, the
-- codecs of transactions, blocks and packets, which stand on the package bufio, the databases,
-- the peers and the pool, the mempool, the miner, the user interfaces, and of the wallet all but
-- the three selections: `select` and `fund` add numbers to objects of bcrypto.
-- `matchAny` is left out of the filters. `verifyPOW` is left out: its test of the hash is commented
-- out in the source.
pub mod Prelude
pub mod Utils
pub mod Script
pub mod Protocol
pub mod Blockchain
pub mod Coins
pub mod Net
pub mod Primitives
pub mod Wallet
pub mod Golomb
