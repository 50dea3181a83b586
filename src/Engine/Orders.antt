-- ===== src/Engine/Orders.antt =====
-- engine/application/order_service.py: `OrderService`.
pub mod Apply
pub mod Submit
