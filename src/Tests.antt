-- ===== src/Tests.antt =====
-- Concrete states on which the theorems apply and the definitions run.
mod Spans
mod Caches
mod Classes
mod Heap
mod Cpus
mod Interfaces
mod PerCpuOps
mod Stock
mod Accounts
mod Suggestions
