-- ===== src/Lib.antt =====
-- A model of the consensus rules of this repository, a Chia-style proof of space and time
-- blockchain, and of the stores of its full node that carry them, with their correctness theorems.
--
-- Parts and files (paths from the repository's root):
--   Base            the language the model rests on: exceptions as values (Base/Outcome), the
--                   range checks of chia/util/ints.py (Base/Ints), dicts as association lists in
--                   insertion order (Base/Dict, Base/Sums), integers, bits, lists and tests.
--   Consensus       the rules of chia/consensus:
--     Constants     constants.py, default_constants.py
--     SignificantBits  chia/util/significant_bits.py
--     PotIterations pot_iterations.py and pos_quality.py: the points of a sub-slot
--     Deficit       deficit.py: the state machine of challenges
--     Rewards       block_rewards.py
--     BlockRecord   block_record.py with the types of coins and sub-epoch summaries
--     Blocks        blockchain_interface.py, and chia/util/block_cache.py (Blocks/Cache)
--     Difficulty    difficulty_adjustment.py: the walks to ancestors (Ancestors), the ends of
--                   sub-epochs and epochs (Epoch), the arithmetic of an adjustment (Adjust) and
--                   the rules themselves (Rules)
--     Summary       make_sub_epoch_summary.py
--     ForkPoint     find_fork_point.py
--     BlockChallenge  get_block_challenge.py, with the challenge chain's end of a sub-slot
--     VdfInfoComputation  vdf_info_computation.py
--   FullNode        components of chia/full_node:
--     Items         chia/types/mempool_item.py
--     PendingTxCache  pending_tx_cache.py
--     SyncStore     sync_store.py
--     Conditions    mempool_check_conditions.py, with chia/util/errors.py (Conditions/Errors),
--                   chia/types/condition_opcodes.py, condition_with_args.py, coin_record.py
--     Mempool       mempool.py, over an interface of a sorted dict (Mempool/SortedDict), which is a
--                   package outside the repository; the coins that a pool spends (Mempool/Coins)
--     Npc           chia/types/name_puzzle_condition.py, coin_spend.py, spend_bundle.py and the
--                   functions on them in chia/util/condition_tools.py and generator_tools.py
--     Cost          chia/consensus/cost_calculator.py, condition_costs.py
--     CoinStore     coin_store.py, its table as rows by name, with CoinState of
--                   chia/protocols/wallet_protocol.py (CoinStore/Queries); the store over its
--                   life (CoinStore/Life) and over a reorganisation (CoinStore/Reorg)
--     Manager       mempool_manager.py, its operations as the steps of a state (Manager/Steps)
--   Util            components of chia/util:
--     LruCache      lru_cache.py, which the coin store uses
--     MerkleSet     merkle_set.py; the hash of two children is a parameter
--   Server          components of chia/server:
--     RateLimits    rate_limits.py, with chia/protocols/protocol_message_types.py
--
-- How the parts interact: the rules take a record `Blocks` of lookups, the part of
-- `BlockchainInterface` that they call; a block cache fills it, and theorems about the rules state
-- what they rely on of a store as `IsLinked` (a block stands one above its predecessor) or
-- `IsMainChain` (the peak's chain up to a height).
--
-- Correspondence: a function has the source's name without a leading underscore. A method that
-- changes an object takes its state and returns the new one. A call that may raise returns a
-- `Result`; the errors are the classes that the source raises. Numbers are natural numbers, sized
-- integers raise where they do not fit, as in the source, and a difference that may be negative is
-- checked by `uint32_sub` and its kin. Hashes, keys and signatures are numbers that are compared
-- only. The floats of the block rewards are exact; the fee rates of the mempool and the rate limits
-- are the correctly rounded doubles, given by their rank (Base/Floats). A method that raises halfway
-- may have changed its object in the source; the model gives the exception only.
--
-- The mempool manager is called under the lock of its pool, so that a call is one step; the coin
-- store is the lookup that a call sees. Its factor for the limit of a block is one half, as
-- it is configured. The name of a coin, the reading of an integer from bytes, the recognition of a
-- quoted puzzle and the clock are parameters.
--
-- The table of the coin store is a dict from the names of coins to rows, in the order of insertion;
-- each SQL statement is a function on it that does what SQLite documents, and a row that breaks the
-- primary key raises `integrity_error`, which is sqlite3.IntegrityError. The state after an
-- exception, when the caller rolls its transaction back, is not modelled.
--
-- Loops: a `while` loop along the hashes runs on a number of rounds, one more than the height of
-- the block it starts from (than the sum of both heights for the fork point), which is enough in a
-- linked store since each step goes down by one. Two different hashes part within 256 bits. The
-- outcome `no_fuel` is none of the program's, and the theorems on termination exclude it.
--
-- Not modelled: hash functions, signatures and VDF proofs (parameters where they are used), the
-- CLVM and the validation of a transaction before it is added, the databases but for the table of
-- the coin store, the validation of blocks, weight proofs, networking and tasks,
-- the wallet, the farmer, the harvester, plotting, commands.
pub mod Base
pub mod Consensus
pub mod FullNode
pub mod Server
pub mod Tests
pub mod Util
