-- ===== src/Tests.antt =====
-- The development's results at concrete inputs: frames of the guitar, runs of polls, buses.
mod Codec
mod Master
mod Firmware
mod Instruments
mod Devices
mod Usb
mod Pads
mod Rounds
mod Lines
mod Running
mod Typed
mod Observing
mod Served
mod Watching
