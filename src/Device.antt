-- ===== src/Device.antt =====
-- Gatehouse devices (src/dispositivos.ts): the request limiter.
pub mod RateLimit
