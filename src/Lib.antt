-- ===== src/Lib.antt =====
-- The Modbus slave server of virtual_bess, the simulated site behind it with its configuration and its
-- state, and the CAN and XN3477 protocols.
--
-- A client's bytes come in on a connection. `internal/mbserver/servetcp.go` cuts them into packets by
-- the MBAP header, `internal/mbserver/servertuovertcp.go` by the function code; `NewTCPFrame` and
-- `NewRTUFrame` make frames of them. All connections send their requests to one goroutine, which calls
-- the handler of the function code for one request after another and writes the response. The default
-- handlers of `internal/mbserver/functions.go` work on the memory areas of the server. The simulated
-- devices keep their registers in banks (`internal/simulator/bank.go`), areas of
-- `internal/mbserver/registers.go`; the CAN publisher packs them into frames, and an XN3477 endpoint
-- copies them to another address map and forwards the controls that a client writes. The handlers of
-- `internal/simulator/simulator.go` find the bank of a slave and call the write handler of its device;
-- a tick works through the control registers of each battery unit, follows its power command, moves its
-- energy, and writes its state to the registers. `internal/simulator/config.go` reads and validates the
-- configuration, of which `NewSimulator` makes the devices: battery units, PV inverters, meters, loads,
-- air conditioners, sensors and the weather. `Tick` updates them all, feeds the meters from the units
-- that each refers to by index, and synchronises the registers. `internal/simulator/state.go` takes the
-- energy counters out of the site and puts them back.
--
-- Files:
--   Prelude        tests, lists, words and bits on native numbers; slices, arrays and panics of Go;
--                  strings as bytes, integers, and sets as lists
--   Mbserver/Crc, Exceptions, Frame, Functions, Registers
--                  crc.go, exceptions.go, frame.go with frametcp.go and framertu.go, functions.go,
--                  registers.go of internal/mbserver
--   Mbserver/Server
--                  server.go; its children Mbap and RtuOverTcp are servetcp.go and servertuovertcp.go
--   Simulator/Registers, Bank, GridVoltage
--                  registers.go, bank.go and grid_voltage.go of internal/simulator
--   Simulator/Float
--                  the operations of float64 and of the math package, as an interface with laws
--   Simulator/Battery
--                  battery_unit.go, with Power; Reactive is battery_reactive.go, and PcsSync, BmsSync,
--                  ClusterSync and Sync are battery_sync.go; Invariant, Controls, Command and Status
--                  hold what is proved of a unit
--   Simulator/Pv   pv_unit.go, with Simulation, and pv_sync.go; Limits and Bounds hold what is proved
--                  of an inverter
--   Simulator/AirConditioner
--                  air_conditioner.go; Thermostat holds what is proved of a unit
--   Simulator/Meter
--                  meter.go; Energy holds what is proved of its counters
--   Simulator/Weather, Load, Environment
--                  weather.go, load.go, and fire.go with temperature_humidity.go
--   Simulator/Config
--                  config.go and config_xn3477.go: the records, with Defaults, Names, and the
--                  validation in Checks, Xn3477, Can, Iec61850 and Validate; their children hold what
--                  is accepted
--   Simulator/Site the devices, `Tick`, `updateMeters` and `syncAll` of simulator.go; Start is
--                  `NewSimulator`, Devices the banks and callbacks of all slaves, Events their ticks and
--                  writes, State is state.go; Indices, Invariant, Ticks, Clients and Runs hold what is
--                  proved of a site
--   Simulator/Core the handlers and writes of simulator.go over an interface of devices; a battery unit
--                  as such devices (Units), and how devices consist of others (Many, Parts)
--   Protocol/Can   internal/protocol/can/can_frames.go
--   Protocol/Xn3477
--                  registers.go and service.go of internal/protocol/xn3477
--   Tests          runs on concrete inputs
-- A definition has the name of its Go function in snake case, and a comment names the function where
-- the names differ. Signed words are their bits.
--
-- A computation that may panic is a `Run`, one that may also return an error an `Outcome`. A slice is
-- its elements and what lies behind them in the backing array, since a slice expression reaches up to
-- the capacity. The register areas are never appended to, so they are functions of the index with a
-- size. Handlers take the state and return it. The mutexes of an area and of the simulator, and the
-- channel of the server, make each operation one step, so a run of the program is a sequence of them.
--
-- The loops over a stream take fuel. One round takes a packet of seven bytes or more from the stream,
-- so more rounds than the stream has bytes, or frames, are enough.
--
-- The arithmetic of `float64` is Go's and not of this repository: the definitions take it as a record
-- of operations, the theorems that need it take the laws that IEEE 754 gives, and fixed point numbers
-- show that the laws can be met. Random numbers are arguments; as in Go, `rand.Intn(n)` panics when `n`
-- is 0, and so does `%` by 0.
--
-- The maps of `validate` and of `Restore` are lists: a set is the list of what was added, and the
-- device of a slave id is the last of the list that has it. Strings are their bytes, and white space
-- that is trimmed is the white space of ASCII. Whether a time zone is known, what a path reads as, and
-- what the YAML decoder makes of the bytes and of the defaults are arguments, of which nothing is
-- assumed. A tick takes the seconds that have passed, the local time and the numbers drawn.
--
-- Not modelled: listening, logging and timers, the serial port, the command line, the files with their
-- YAML and JSON and the time zone data, the texts of errors, the CAN sockets, the IEC 61850 server on
-- its C library, and the vendored libraries. The write of the XN3477 endpoint to the simulator is an
-- operation that the endpoint's section takes.
pub mod Prelude
pub mod Mbserver
pub mod Simulator
pub mod Protocol
pub mod Tests
