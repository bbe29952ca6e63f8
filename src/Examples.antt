-- ===== src/Examples.antt =====
-- The theorems at concrete inputs, on which their hypotheses hold.
mod Keepers
mod Executions
mod Streams
mod Clients
mod Markets
mod Wires
mod Sockets
mod Polling
mod Ticks
mod Codecs
