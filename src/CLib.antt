-- ===== src/CLib.antt =====
-- What the firmware uses of the C library, over byte lists: `snprintf`'s `%lu`, `strtoul` and
-- `strncmp`. `unsigned long` has 32 bits, as on the nRF52840.
pub mod Decimal
pub mod Snprintf
pub mod Strtoul
pub mod Strncmp
pub mod RoundTrip
