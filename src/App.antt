-- ===== src/App.antt =====
-- The BrokerApp controller, controllers/brokerapp_controller.go.
pub mod Address
pub mod Validate
pub mod Checks
pub mod Capacity
pub mod Find
pub mod Resolve
pub mod Status
pub mod Watch
pub mod Binding
pub mod Reconcile
