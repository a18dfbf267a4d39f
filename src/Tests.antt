-- ===== src/Tests.antt =====
-- The code's functions at concrete inputs, and the theorems at them.
mod Data
mod Frames
mod Listening
mod Sending
mod Answers
mod Pings
mod Requests
mod Handshakes
mod Clients
mod Streams
mod Turns
mod Gathering
