-- ===== src/Lib.antt =====
-- Pico-SG2HID: a Raspberry Pi Pico that speaks the PS2 controller protocol to an SG guitar and
-- shows it to a computer as a USB gamepad.
--
-- The program and the files that model it. Functions keep their names; a function that changes an
-- argument through a reference or a pointer returns the new value.
-- - Protocol: the constants, the controller ids and the frame lengths of src/core/ps2_protocol.h.
-- - Frame: `decode` of src/core/ps2_frame.cpp. Frame/Decode has the wire form that it accepts.
-- - Guitar: `map_frame` of src/core/guitar_state.cpp. Guitar/Controls reads the bytes bit by bit.
-- - Report: `build_report` of src/core/hid_report.cpp, and in Report/Descriptor the HID report
--   descriptor of src/core/hid_descriptor.h. Report/Host is no part of the program: it is a host
--   that reads a report by a descriptor, written from the HID specification, and Report/Layout
--   joins the two.
-- - Link: `step` of src/core/link.cpp, the link's lifecycle. Link/Time, Link/Lifecycle, Link/Runs
--   and Link/Drops are about its clock, one poll, and runs of polls.
-- - Trace: the wire byte of src/core/bus_trace.h and `format_trace_line` of src/core/bus_trace.cpp,
--   which writes through a bounded writer (Trace/Writer); Trace/Line has the line itself,
--   Trace/Fits the buffer of src/app/console.cpp. `std::to_chars` is the decimal digits, of which
--   twenty are enough for a 64-bit number.
-- - Pins: the pin tables of src/core/pins.h.
-- - Filter: src/core/trace_filter.cpp, which of the frames the observe firmware prints.
-- - Command: the serial line reader of src/core/command_line.cpp.
-- - Poll: `decode_poll`, `count_poll` and `report_for` of src/core/poll.cpp.
-- - Negotiation: `advance` of src/core/negotiation.cpp, the analog-mode sequence. It looks at the
--   prefix of a frame, steps the link by the frame's decode, and chooses the next command.
-- - Bus: `exchange_frame` of src/hal/bus_frame.cpp. The port of src/hal/bus_port.h, which drives
--   the hardware, is a parameter: a record of its operations on any state. Bus/Paced is about the
--   time that a frame takes, Bus/Untouched about what it leaves.
-- - Emulator: the class `SgModel` of src/emu/sg_model.cpp; Emulator/Commands has its line commands,
--   and its children are about their numbers, faults and payloads.
-- - Console: the lines of src/app/console.cpp. Hosts that read them are no part of the program:
--   Host takes a line apart, Console/Host reads a link line, Console/Reader a trace line;
--   Console/Items and Console/Read are about what the latter gets.
-- - Usb: the stored report of src/usb/usb_device.cpp. Whether TinyUSB is ready is an argument.
--   Usb/Strings has its string descriptors, Usb/Strings/Read a host that reads them.
--   Usb/Descriptors has the device and configuration descriptors, over TinyUSB's macros, which are
--   a parameter; Usb/Descriptors/Host is a host that walks a configuration, Usb/Descriptors/Walk
--   what it finds in this one, and what the macros have to do for it.
-- - Firmware: `poll_once` and the loop of src/app/main.cpp. The clock's readings and what TinyUSB
--   says are arguments, the bus port a parameter. Firmware/Summary has the text of its summary,
--   Firmware/Summary/Read a reader of the report in it. Firmware/Running is `main` with its wait,
--   its clock readings and its calls of the SDK, which is a parameter; Firmware/Paced and
--   Firmware/Rounds are about the time that its rounds take, Firmware/Turns and Firmware/Reports
--   about what every turn keeps.
-- - Observe: src/app/observe.cpp, the instrument that the guitar first meets: its serial commands,
--   its frames and its loop. What the serial port gives is an argument. Observe/ReadOnly is about
--   what it sends, Observe/Switch about what makes it leave digital mode, Observe/Heard and
--   Observe/Commanded about what a text says to it. Observe/Running is its `main` on the hardware,
--   with the SDK's calls as a parameter; Observe/Paced and Observe/Rounds are about its time and
--   its end.
-- - Serving: src/emu/main.cpp, the firmware of the emulated guitar, over the port of
--   src/hal/device_port.h, the clock and the serial port, which are a parameter. Serving/Calls has
--   the calls of the port that a frame and an idle loop make. Its loops wait for the hardware and
--   take fuel: Serving/Runs shows how much is enough when the master lets go of ATT in the end,
--   Serving/Rounds the same for a round of the loop. Serving/Line is the serial line reader.
-- - MasterPort: src/hal/pio_port.cpp and src/hal/bus_wait.cpp, the port of Bus over the Pico SDK.
--   The SDK is a parameter; the loops that poll it take fuel. MasterPort/Clock says what is asked
--   of the clock, that each reading takes a nanosecond or more and no call longer than a second,
--   and then a budget's nanoseconds are fuel enough; MasterPort/Calls has the calls of the SDK and
--   those of a wait; MasterPort/Byte and MasterPort/Ends are about one byte, MasterPort/Levels,
--   MasterPort/Edges and MasterPort/Probe about the bit-order probe, MasterPort/Frames about whole
--   frames, MasterPort/Deadline about the time that they take. MasterPort/Setup is `bus_init`, over
--   the SDK's configuring calls; MasterPort/Idle says what they do to the pads, MasterPort/Quiet
--   goes through them in order.
-- - DevicePio: src/hal/pio_device.cpp, the emulator's port over the Pico SDK, which is a parameter.
--   Pins/Calls is what it shares with the master's. DevicePio/Words has the words of the FIFO,
--   DevicePio/Pads what the SDK's documentation says of the pads, DevicePio/NeverHigh the order of
--   the configuring calls.
-- - Loopback: src/app/loopback.cpp, the self test of the wires; Loopback/Echo is about its match,
--   Loopback/Lines has what it prints, Loopback/Probe a host that reads the probe's line.
-- - Wired: the port of Bus over the model of Emulator, as Serving serves a frame. It stands for the
--   wires and the PIO programs of src/hal/, and is an assumption about them: every byte arrives,
--   and a byte that waits for its ACK fails where the ACK is withheld or is later than the master's
--   ACK timeout. Wired/Streaming is for guitars without a fault and Wired/Declined for guitars that
--   decline analog mode. Wired/Typed is the whole path from a line typed at the emulator to the
--   report at a USB host. Wired/Served sets a frame of the master against the frame that the
--   emulator serves, whatever its fault.
-- - Common: what the components share. Tests: the results at concrete inputs.
--
-- Numbers are naturals. A byte is below 256 and a 32-bit clock at most `u32_max`; the wrap-around of
-- the source's unsigned arithmetic is written out. Arrays and spans are lists. The loops over an
-- index are by recursion on the rounds that are left, which is the loop's own bound; only the
-- loops that wait for the hardware take fuel. As a reading of the clock takes a nanosecond or more,
-- the nanoseconds of the wait are enough of it, for a period of 8 ms with the reading's rounding
-- 8001000. An endless loop is a list of turns of any length, or any number of rounds.
--
-- Not modelled: the PIO programs of src/hal/ (assembly), and calls that only pass on to the Pico
-- SDK or TinyUSB.
pub mod Common
pub mod Protocol
pub mod Frame
pub mod Guitar
pub mod Report
pub mod Link
pub mod Trace
pub mod Filter
pub mod Command
pub mod Poll
pub mod Negotiation
pub mod Bus
pub mod Emulator
pub mod Usb
pub mod Console
pub mod Firmware
pub mod Pins
pub mod Observe
pub mod Host
pub mod Loopback
pub mod MasterPort
pub mod DevicePio
pub mod Serving
pub mod Wired
pub mod Tests
