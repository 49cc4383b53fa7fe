-- ===== src/Battery.antt =====
-- sensors/coap-mqtt-battery-sensor: the battery node's state and its resource.
pub mod Floats
pub mod State
pub mod Lock
pub mod Nan
pub mod Override
pub mod Registration
pub mod Registered
pub mod Node
pub mod Life
pub mod Answers
pub mod Logs
pub mod Poison
pub mod Lifetimes
pub mod Hysteresis
pub mod Fixed
pub mod Json
pub mod Decode
