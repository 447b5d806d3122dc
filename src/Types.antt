-- ===== src/Types.antt =====
-- The objects that the controllers read and write: the operator's own kinds (api/v1) and the
-- Kubernetes kinds with the fields that the controllers set.
pub mod Metadata
pub mod Crd
pub mod Workload
pub mod Object
pub mod Images
pub mod Volumes
pub use Metadata.*
pub use Crd.*
pub use Workload.*
