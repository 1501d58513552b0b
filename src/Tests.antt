-- ===== src/Tests.antt =====
-- Runs of the modelled functions on small inputs, and the theorems at such inputs.
pub mod Device
pub mod Cards
pub mod Net
pub mod Store
pub mod Web
pub mod Values
pub mod Portal
pub mod Runs
pub mod Faults
pub mod Unit
pub mod Valid
pub mod Files
