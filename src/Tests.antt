-- ===== src/Tests.antt =====
-- The components at concrete inputs, a module of tests for each group of them.
mod Tokens
mod Cluster
mod Configuration
mod Storage
mod Binding
mod Bundles
mod Hosts
mod Locations
mod Bootstrapping
mod Secrecy
mod Applications
mod Installs
mod Nodes
mod Schedules
