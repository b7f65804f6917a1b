-- ===== src/StateTable.antt =====
-- ProducerStateTable and ConsumerStateTable: producers leave pending changes of a table in a set of
-- keys and in hashes beside the table, and a consumer moves them into the table.
pub mod Names
pub mod Scripts
pub mod Producer
pub mod Consumer
pub mod Commands
pub mod View
pub mod Pop
pub mod Pops
pub mod Delivery
pub mod Changes
pub mod Held
pub mod Runs
pub mod History
pub mod TempView
pub mod Compare
pub mod Diff
pub mod Dumps
pub mod Applied
pub mod EmptyKey
pub mod Apply
pub mod Switch
mod Examples
mod ViewExamples
