-- ===== src/Server.antt =====
-- components/app_local_server/app_local_server.c: the monitor, the firmware update and the handlers of
-- requests.
pub mod Monitor
pub mod Queue
pub mod Loop
pub mod Ota
pub mod BlankLine
pub mod Flash
pub mod Timeouts
pub mod Times
pub mod Chunks
pub mod Http
pub mod Handlers
pub mod Replies
pub mod Portal
pub mod Room
pub mod Sessions
pub mod WifiConnect
pub mod GetData
pub mod Routes
pub mod Pages
