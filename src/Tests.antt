-- ===== src/Tests.antt =====
-- Concrete instances of the parameters, and the theorems at concrete inputs.
mod Toy
mod Records
mod Channel
mod PreHandshake
mod ToyMls
mod Rows
mod Updates
mod Laws
mod Pair
mod Resumption
mod Driver
mod Connection
mod Provider
mod Sending
mod Start
mod Steps
