-- ===== src/Examples.antt =====
-- The theorems at concrete inputs, and tests of the definitions. The parameters are instantiated by
-- concrete functions: a digest of 32 bytes, and a codec in place of JSON.
mod Codec
mod Host
mod Commitments
mod Anchors
mod Archives
mod Captures
mod Torn
mod Ledgers
mod Timings
mod Queues
mod Sorted
mod Hooks
mod Receipts
mod Profiles
mod Logs
