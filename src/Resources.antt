-- ===== src/Resources.antt =====
-- The CoAP resources of the producer nodes, sensors/coap-mqtt-sensor/resources.
pub mod Sampling
pub mod Status
pub mod Leds
pub mod Push
