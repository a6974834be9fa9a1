-- ===== src/Tests.antt =====
-- Tests that evaluate the model, and the theorems at concrete inputs (no code is modelled here).
mod Trees
mod Stores
mod Maps
mod Caches
mod Sets
mod Wire
mod Server
mod Loop
mod Threads
mod Topics
