-- ===== src/Runner/Tests.antt =====
-- Tests of the runner's parts on small inputs, and the theorems applied to them.
mod World
mod Machine
mod Arithmetic
mod Stores
mod Decoding
mod Loading
mod Reads
