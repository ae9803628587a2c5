-- ===== src/Examples.antt =====
-- Concrete instances of the interfaces, and the tests and examples on them.
pub mod Codecs
pub mod FixedPoint
mod StoreTests
mod LedgerTests
mod DeployTests
mod RoutingTests
mod IngressTests
mod DeliveryTests
mod FlywheelTests
mod RequestTests
mod SoakTests
mod StressTests
mod RehearsalTests
