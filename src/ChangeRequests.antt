-- ===== src/ChangeRequests.antt =====
-- internal/domain/changerequests: proposals of members and officers, and their review.
pub mod Policy
pub mod Types
pub mod Validation
pub mod Intake
pub mod Status
pub mod Apply
pub mod Review
pub mod Aside
pub mod Applying
pub mod Operations
pub mod Kept
pub mod Final
pub mod Applied
pub mod Approval
pub mod Values
pub mod Renaming
pub mod Withdrawal
pub mod Example
mod Tests
