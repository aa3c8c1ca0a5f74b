-- ===== src/Sidecar.antt =====
-- The documents that describe sidecar containers: internal/sidecar.
pub mod Defaults
pub mod Clean
pub mod Variables
pub mod Provided
pub mod DefaultsValid
pub mod Images
pub mod Ready
pub mod Expand
pub mod Resolve
pub mod Template
pub mod Document
pub mod Accepted
pub mod Definitions
pub mod Catalog
