-- ===== src/Agent.antt =====
-- internal/agent: the node agent that executes the leases of the coordinator.
pub mod Slots
pub mod Machine
pub mod Output
pub mod Attempt
pub mod Results
pub mod Cleanup
pub mod Interactive
pub mod Io
pub mod Client
pub mod Host
pub mod Templates
pub mod Handlers
pub mod AttemptRecord
pub mod Child
pub mod PreparedTree
pub mod Prepare
pub mod Shard
pub mod Sandboxes
pub mod Examples
pub mod Toy
pub mod NodeExamples
pub mod StoreExamples
pub mod ChildExamples
pub mod ResultExamples
