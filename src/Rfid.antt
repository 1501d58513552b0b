-- ===== src/Rfid.antt =====
-- components/rfid_manager: the card database.
pub mod Card
pub mod Layout
pub mod Store
pub mod Opened
pub mod Valid
pub mod Decoded
pub mod Manage
pub mod Query
pub mod Setup
pub mod Json
pub mod Entries
pub mod Listing
pub mod Requests
pub mod Sessions
pub mod Spec
pub mod Traces
pub mod Invariants
pub mod Admin
pub mod Boot
pub mod Names
pub mod Represents
pub mod Faults
pub mod Register
pub mod Add
pub mod Remove
pub mod Balance
pub mod ReadOnly
pub mod Closes
pub mod Calls
pub mod Defaults
pub mod Reset
pub mod Refine
