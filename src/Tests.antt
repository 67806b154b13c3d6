-- ===== src/Tests.antt =====
-- Runs of the modelled code on small inputs.
mod ListSort
mod HashTable
mod MemHeap
mod Filter
mod RingBuf
mod BitArray
mod Fields
mod Table
mod LnfFilter
mod Store
mod Setup
mod Literal
mod Address
mod Leaf
mod Raw
mod Threads
