-- ===== src/Usb.antt =====
-- The USB side of the firmware, components/ipod_usb/ipod_usb.c.
pub mod Ring
pub mod Batch
pub mod Device
pub mod Descriptors
pub mod Attach
pub mod Inv
pub mod Stream
pub mod Exchange
pub mod Stall
pub mod Log
pub mod Status
pub mod Runs
