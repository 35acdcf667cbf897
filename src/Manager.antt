-- ===== src/Manager.antt =====
-- AdManager.cpp: the advertising client and the bar server, which are one class.
pub mod Types
pub mod Handler
pub mod Download
pub mod Requests
pub mod Queries
pub mod Calls
pub mod Known
pub mod Verified
pub mod History
pub mod Needed
pub mod Cache
pub mod Relay
pub mod Business
pub mod Services
pub mod Lifecycle
pub mod Kept
pub mod Formats
pub mod Center
pub mod CenterPolicy
