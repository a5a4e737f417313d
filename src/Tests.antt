-- ===== src/Tests.antt =====
-- Runs of the model at concrete inputs, and the theorems at inputs that meet their hypotheses.
mod Images
mod Files
mod People
mod Queues
mod Lexing
mod Keyboards
mod Seats
mod Sums
mod Plain
mod Programs
mod Machines
mod Tapes
mod Parsing
