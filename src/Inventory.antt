-- ===== src/Inventory.antt =====
-- storage/database.go, service/device_management.go and service/service.go: the tables that an
-- administrator keeps, and the admin API over them.
pub mod Table
pub mod Store
pub mod Methods
pub mod Handlers
pub mod Requests
pub mod Links
pub mod Linked
pub mod Served
pub mod Tests
