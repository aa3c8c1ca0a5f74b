-- ===== src/Mutex.antt =====
-- internal/directorymutex
pub mod Marker
pub mod Directory
pub mod Spec
pub mod Attempt
pub mod Context
pub mod Locking
