-- ===== src/Egress.antt =====
-- The gate of outgoing HTTP (internal/kernel/httpegress/egress.go).
pub mod Addresses
pub mod Validate
pub mod Dial
pub mod Public
pub mod Safety
mod Tests
