-- ===== src/Billing.antt =====
-- internal/services/billing and internal/repositories/billing: charges, holds and the ledger.
pub mod Charge
pub mod HoldPlan
pub mod Holds
pub mod Sweep
pub mod Ledger
pub mod Invariants
pub mod Processor
pub mod History
pub mod Queue
