-- ===== src/Tests/Fork.antt =====
-- The fork point of two blocks of a small chain.
use gold_blockchain.Base.{zero, suc, ◌≡◌, refl, arith, ok, Gives}
use gold_blockchain.Consensus.ForkPoint.{find_fork_point_in_chain}
use gold_blockchain.Consensus.ForkPoint.Ancestors.{AreNamed}
use gold_blockchain.Consensus.ForkPoint.Common.{IsForkPoint, find_fork_point_lem}
use gold_blockchain.Base.Int.{pos}
use gold_blockchain.Tests.Chain.{small_block, small_chain, small_chain-IsLinked}

small_chain-AreNamed : AreNamed small_chain
small_chain-AreNamed zero b e = cc
small_chain-AreNamed (suc k) b e = ground arith

same_chain : find_fork_point_in_chain small_chain (small_block 9) (small_block 4) ≡ ok (pos 4)
unfolding find_fork_point_in_chain
same_chain = refl

find_fork_point_lem_example :
    Gives
      (find_fork_point_in_chain small_chain (small_block 9) (small_block 4))
      (IsForkPoint small_chain (small_block 9) (small_block 4))
find_fork_point_lem_example =
    find_fork_point_lem small_chain small_chain-IsLinked small_chain-AreNamed (small_block 9)
      (small_block 4) (10, refl) (5, refl)
