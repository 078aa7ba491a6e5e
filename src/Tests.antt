-- ===== src/Tests.antt =====
-- The theorems at concrete inputs, and runs of the definitions.
pub mod Dates
pub mod Limits
pub mod Insights
pub mod Relay
pub mod Requests
pub mod Announcements
pub mod Books
pub mod Members
pub mod Conversation
pub mod Chats
pub mod Spendings
pub mod Lists
