-- ===== src/Gateway.antt =====
-- The order gateway: src/include/order_gateway and src/order_gateway, on both ends of the wire.
pub mod Framing
pub mod FifoSequencer
pub mod OrderServer
pub mod GatewayClient
pub mod Publishing
pub mod Requests
pub mod Responses
