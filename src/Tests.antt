-- ===== src/Tests.antt =====
-- A table and keys to run the code with, and runs of it.
mod ListTable
mod World
mod LockRuns
mod MapRuns
mod WholeRuns
mod RayonRuns
mod ParIterRuns
mod ParIterMutRuns
mod SerdeRuns
mod ConcurrentRuns
