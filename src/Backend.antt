-- ===== src/Backend.antt =====
-- The fake backend of voxcpm_runtime/, which generates reproducible audio without a model.
pub mod Fake
pub mod Chunks
pub mod Lifecycle
pub mod Samples
