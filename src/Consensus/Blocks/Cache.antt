-- ===== src/Consensus/Blocks/Cache.antt =====
-- `class BlockCache` of chia/util/block_cache.py: the dicts of records and of hashes by height. The
-- dicts of headers and of sub-epoch segments, which it only hands out, are left out.
use gold_blockchain.Base.{
  ℕ, ◌≡◌, Bool, Option, none, some, arith, ◌==◌, if◌then◌else◌, key_error, Result, ok, err,
  or_raise, Returns,
}
use gold_blockchain.Base.Dict.{
  lookup-erase, insert-IsDict, Dict, lookup, contains, insert, erase, lookup-insert, IsDict,
}
use gold_blockchain.Consensus.BlockRecord.{BlockRecord, SubEpochSummary}
use gold_blockchain.Consensus.Blocks.{Blocks}

pub record BlockCache : Type 0 where
  pub block_records : Dict BlockRecord
  pub hashes : Dict ℕ
  pub sub_epoch_summaries : Dict SubEpochSummary

unfoldable pub block_record : BlockCache → ℕ → Result BlockRecord
block_record cache header_hash = or_raise (lookup header_hash cache.block_records) key_error

unfoldable pub height_to_hash : BlockCache → ℕ → Option ℕ
height_to_hash cache height = lookup height cache.hashes

-- None is no key of the records.
unfoldable pub height_to_block_record : BlockCache → ℕ → Result BlockRecord
unfolding block_record height_to_hash
height_to_block_record cache height = elim (height_to_hash cache height) [
  | none ↦ err key_error
  | some h ↦ block_record cache h
]

unfoldable pub get_ses : BlockCache → ℕ → Result SubEpochSummary
get_ses cache height = or_raise (lookup height cache.sub_epoch_summaries) key_error

unfoldable pub contains_block : BlockCache → ℕ → Bool
contains_block cache header_hash = contains header_hash cache.block_records

unfoldable pub contains_height : BlockCache → ℕ → Bool
contains_height cache height = contains height cache.hashes

-- `del` raises on a missing key.
unfoldable pub remove_block_record : BlockCache → ℕ → Result BlockCache
remove_block_record cache header_hash =
    if contains header_hash cache.block_records
    then ok (record cache { block_records = erase header_hash cache.block_records })
    else err key_error

unfoldable pub add_block_record : BlockCache → BlockRecord → BlockCache
add_block_record cache b = record cache {
  block_records = insert b.header_hash b cache.block_records;
}

-- The cache as what the rules read.
unfoldable pub as_blocks : BlockCache → Blocks
unfolding contains_block block_record contains_height height_to_hash height_to_block_record
as_blocks cache = record {
  contains_block = contains_block cache;
  block_record = block_record cache;
  contains_height = contains_height cache;
  height_to_hash = height_to_hash cache;
  height_to_block_record = height_to_block_record cache;
}

-- A record that is added is found under its hash, every other hash is found as before, and taking
-- the record out again leaves its hash unknown and the other hashes as they were.
pub add_remove_block_record :
    (cache : BlockCache) (b : BlockRecord) (h : ℕ)
    → IsDict cache.block_records
    → (block_record (add_block_record cache b) h
        ≡ (if h == b.header_hash then ok b else block_record cache h))
      × Returns (remove_block_record (add_block_record cache b) b.header_hash) (λ after.
        block_record after h ≡ (if h == b.header_hash then err key_error else block_record cache h))
unfolding block_record add_block_record remove_block_record
add_remove_block_record cache b h d = ground (
  arith,
  lookup-insert b.header_hash h b cache.block_records,
  lookup-insert b.header_hash b.header_hash b cache.block_records,
  lookup-erase b.header_hash h (insert b.header_hash b cache.block_records),
  insert-IsDict b.header_hash b cache.block_records d,
)
