-- ===== src/ShortCard.antt =====
-- Field management (api/views/short_card.py).
pub mod Tables
pub mod Tiers
pub mod Stage
pub mod Scope
pub mod Replies
pub mod Decide
pub mod Journal
pub mod Submit
pub mod Goals
pub mod Listing
pub mod Authority
pub mod Lifecycle
pub mod Visibility
pub mod Ranks
pub mod Phones
pub mod Counting
mod Tests
