-- ===== src/Organization.antt =====
-- internal/services/organization: what a plan entitles to.
pub mod Entitlement
pub mod Plans
