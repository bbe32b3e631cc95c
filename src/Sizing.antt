-- ===== src/Sizing.antt =====
-- src/oms_gateway/sizing.py: the notional of an order, its side and its venue.
pub mod Overrides
pub mod Notional
pub mod Scaled
pub mod Bounds
pub mod Headroom
