-- ===== src/Tests.antt =====
-- Runs of the models on small inputs: each theorem with hypotheses applied where they hold, and tests.
mod Nodes
mod Scheduler
mod Tcp
mod Event
mod Connections
mod Threads
mod Cluster
mod Servers
mod Sends
mod Slices
mod Http
mod EventServer
mod Packets
mod Latch
mod Machine
