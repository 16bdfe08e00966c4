-- ===== src/Tests.antt =====
-- Runs on small chains, numbers and stores.
mod Chain
mod Difficulty
mod Summary
mod Values
mod SortedList
mod FullNode
mod Server
mod Manager
mod Fork
mod Coins
mod Challenge
mod Merkle
