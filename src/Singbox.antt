-- ===== src/Singbox.antt =====
-- convert/singbox: the parts of a sing-box configuration.
pub mod Outbounds
pub mod Templates
pub mod Endpoint
pub mod Route
pub mod Defaults
pub mod DefaultTables
pub mod Tests
pub mod RouteTests
