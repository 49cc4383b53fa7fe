-- ===== src/Tests.antt =====
-- Concrete runs, and the headline theorems at inputs that meet their hypotheses.
pub mod Samples
pub mod SamplingTests
pub mod StatusTests
pub mod ResourceTests
pub mod BatteryTests
pub mod TelemetryTests
pub mod MqttTests
pub mod SystemTests
pub mod JsonTests
pub mod ServerTests
pub mod RunTests
pub mod SwitchTests
pub mod BoardTests
