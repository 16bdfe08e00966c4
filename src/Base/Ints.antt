-- ===== src/Base/Ints.antt =====
-- The sized integers of chia/util/ints.py: their constructors raise `ValueError` on a value that
-- does not fit, they never wrap. A value that may be negative in Python is written as a difference,
-- whose constructor raises where the second number is the larger.
use gold_blockchain.Base.Tests.{ltb, leb, if◌then◌else◌}
use gold_blockchain.Base.Outcome.{Result, ok, err, value_error}
use Prim.Native.Nat.{ℕ, ◌-◌, ◌^◌}

abbrev sized : ℕ → ℕ → Result ℕ
sized bits n = if ltb n (2 ^ bits) then ok n else err value_error

-- The classes `uint8`, `uint32`, `uint64` and `uint128` on a value of zero or more.
abbrev pub uint8 : ℕ → Result ℕ
uint8 = sized 8

abbrev pub uint32 : ℕ → Result ℕ
uint32 = sized 32

abbrev pub uint64 : ℕ → Result ℕ
uint64 = sized 64

abbrev pub uint128 : ℕ → Result ℕ
uint128 = sized 128

-- The same classes on the difference of two numbers.
abbrev pub uint64_sub : ℕ → ℕ → Result ℕ
uint64_sub a b = if leb b a then uint64 (a - b) else err value_error

abbrev pub uint32_sub : ℕ → ℕ → Result ℕ
uint32_sub a b = if leb b a then uint32 (a - b) else err value_error

abbrev pub uint128_sub : ℕ → ℕ → Result ℕ
uint128_sub a b = if leb b a then uint128 (a - b) else err value_error
