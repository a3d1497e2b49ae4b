-- ===== src/Tests.antt =====
-- Runs on concrete inputs: the theorems of the other modules, applied.
pub mod Samples
pub mod Orders
pub mod Requests
pub mod Limits
pub mod Messages
pub mod Retention
pub mod Access
pub mod Calls
pub mod Keys
pub mod Settings
pub mod Wire
pub mod Chain
pub mod Tables
pub mod Edges
pub mod Borders
pub mod Errors
