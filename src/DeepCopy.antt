-- ===== src/DeepCopy.antt =====
-- api/v1/zz_generated.deepcopy.go: the deep copies of the custom resources, which the Kubernetes
-- client makes of the objects in its cache. The memory holds the arrays behind the slices.
pub mod Arrays
pub mod Copier
pub mod Status
pub mod Objects
pub mod Lists
