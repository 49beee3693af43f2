-- ===== src/Customer.antt =====
-- internal/customer: the portal of the customers.
pub mod Types
pub mod Service
pub mod Store
pub mod Handler
