-- ===== src/Runs.antt =====
-- The theorems at concrete inputs, and small runs of the definitions.
pub mod Data
mod Strings
mod Loading
mod Relocating
mod Apk
mod Manifests
mod Relr
