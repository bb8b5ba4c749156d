-- ===== src/Dispatch/Graph.antt =====
-- plugins/dispatch/model.go: `ValidateGraph`, `BuildGraph`, `sortRules` and `buildHostCandidates`,
-- and `BuildSnapshot` of snapshot.go.
pub mod Validate
pub mod Sort
pub mod Hosts
pub mod Build
pub mod Built
