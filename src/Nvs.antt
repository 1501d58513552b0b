-- ===== src/Nvs.antt =====
-- components/nvs_storage: the Wi-Fi credentials and the parameters in non-volatile storage.
pub mod Api
pub mod Credentials
pub mod Params
pub mod SelfTests
pub mod Handles
pub mod Keeps
pub mod Room
