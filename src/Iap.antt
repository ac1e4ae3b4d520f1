-- ===== src/Iap.antt =====
-- The iAP engine of firmware/airplay-receiver/components/ipod_usb/iap.c.
pub mod Types
pub mod Queue
pub mod Packet
pub mod Report
pub mod Command
pub mod State
pub mod General
pub mod Live
pub mod Extremote
pub mod Dispatch
pub mod Inv
pub mod Delivery
mod Runs
