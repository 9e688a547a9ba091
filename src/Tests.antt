-- ===== src/Tests.antt =====
-- The theorems and the functions at concrete inputs.
mod Messages
mod Hex
mod Requests
mod Sockets
mod Threads
mod Clients
mod Counting
mod Whole
mod Serving
mod Pieces
mod Mixing
mod Answered
mod Finishing
mod Bytes
