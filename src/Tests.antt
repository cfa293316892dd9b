-- ===== src/Tests.antt =====
-- Runs of the modelled code on concrete inputs.
mod Conns
mod Pools
mod Transactions
mod Wires
mod Frames
mod Values
mod Shares
mod Files
