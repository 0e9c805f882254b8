-- ===== src/Config.antt =====
-- How voxcpm_runtime/config.py reads values: texts are lists of code points.
pub mod Text
pub mod Parse
pub mod Decimal
pub mod RoundTrip
pub mod Distinct
pub mod Fields
pub mod Bounds
