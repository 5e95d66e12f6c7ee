-- ===== src/Billing.antt =====
-- Plans, gates and payment states (internal/billing).
pub mod Features
pub mod Limits
pub mod Gates
pub mod TenantsTable
pub mod Tenant
mod Tests
