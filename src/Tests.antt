-- ===== src/Tests.antt =====
-- Concrete runs at which the theorems apply.
mod Data
mod Quarantines
mod Handshakes
mod Votes
mod Fleets
mod Agents
mod Boards
mod Factory
mod Memory
mod Installs
mod Users
mod Graphs
mod Stores
