-- ===== src/Consensus/PotIterations/Quality.antt =====
-- `calculate_iterations_quality` of chia/consensus/pot_iterations.py and `_expected_plot_size` of
-- chia/consensus/pos_quality.py. `std_hash` of the two byte strings is a parameter, as the number
-- that the source makes of it.
use gold_blockchain.Base.{ℕ, ◌+◌, ◌-◌, ◌*◌, ◌^◌, max, ◌==◌, if◌then◌else◌, Result, ok, ◌>>=◌}
use gold_blockchain.Base.Ints.{uint64}
use gold_blockchain.Consensus.PotIterations.{floor_div}

-- At k = 0 Python's `2 ** -1` is the float 0.5, which the caller's `int` makes 0.
unfoldable pub expected_plot_size : ℕ → ℕ
expected_plot_size k = if k == 0 then 0 else (2 * k + 1) * 2 ^ (k - 1)

module _ (std_hash : ℕ → ℕ → ℕ) where
  unfoldable pub calculate_iterations_quality : ℕ → ℕ → ℕ → ℕ → ℕ → Result ℕ
  unfolding expected_plot_size
  calculate_iterations_quality difficulty_constant_factor quality_string size difficulty
        cc_sp_output_hash =
      do
        let sp_quality = std_hash quality_string cc_sp_output_hash
        quotient ←
            floor_div (difficulty * difficulty_constant_factor * sp_quality)
              (2 ^ 256 * expected_plot_size size)
        iters ← uint64 quotient
        ok (max iters 1)
