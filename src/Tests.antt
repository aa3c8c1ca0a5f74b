-- ===== src/Tests.antt =====
-- Tests of the parts, and their theorems at concrete inputs.
mod MutexTests
mod WorkflowTests
mod ConfigurationTests
mod CleanupTests
mod LocalParquetTests
mod PollingTests
mod SidecarTests
mod SignalsTests
mod PortsTests
mod CompatibilityTests
mod StatementTests
