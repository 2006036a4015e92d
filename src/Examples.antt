-- ===== src/Examples.antt =====
-- Runs of the model on concrete inputs, and each theorem at an input that meets its hypotheses.
mod Layout
mod Snapshot
mod Csr
mod Db
mod Store
mod Algo
