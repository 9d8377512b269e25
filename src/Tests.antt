-- ===== src/Tests.antt =====
-- Tests, and each theorem with hypotheses at an input that meets them.
mod Long
mod Pheap
mod Table
mod Chunk
mod Slice
mod Scanner
mod Division
mod Powersort
mod ListObject
