-- ===== src/AbstractNode.antt =====
-- The state that the nodes of a cluster share: even-http/ps/core/abstract_node.h and
-- abstract_node.cc, split by the fields that work together.
pub mod Collective
pub mod Requests
pub mod Sends
pub mod Member
