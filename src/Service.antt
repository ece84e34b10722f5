-- ===== src/Service.antt =====
-- examples/node: the program that runs a node as a process of its own, with a list of the children
-- it lets in, a store of the envelopes it has seen, and an HTTP interface.
pub mod AllowList
pub mod Storage
pub mod CheckDb
pub mod Config
pub mod Api
pub mod Main
pub mod Run
pub mod Tests
