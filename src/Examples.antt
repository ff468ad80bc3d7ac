-- ===== src/Examples.antt =====
-- Concrete inputs for the theorems that have hypotheses.
mod Toy
mod Downloads
mod Certificates
mod Files
mod Addresses
mod Configurations
mod Dials
mod TabLists
mod ExitNodes
mod Proxies
mod Servers
mod Transfers
mod Names
mod Messages
