-- ===== src/Cluster.antt =====
-- The data that the nodes of a cluster exchange: even-http/ps/core/node_info.h and the messages of
-- even-http/ps/core/protos/comm.proto, as the handlers read and fill them.
use rpc.Common.{ℕ, Bool, true, false, String}
use rpc.Common.Words.{ℤ}

pub data NodeRole : Type 0 where
  server worker scheduler : NodeRole

abbrev pub is_server : NodeRole → Bool
is_server server = true
is_server worker = false
is_server scheduler = false

pub record NodeInfo : Type 0 where
  pub ip : String
  pub port : ℕ
  pub node_id : String
  pub node_role : NodeRole
  pub rank_id : ℕ

-- What the constructor of `NodeInfo` leaves.
abbrev pub default_node_info : NodeInfo
default_node_info = record { ip = ""; port = 0; node_id = ""; node_role = scheduler; rank_id = 0 }

pub record RegisterMessage : Type 0 where
  pub ip : String
  pub port : ℕ
  pub node_id : String
  pub role : NodeRole

pub record ServersMeta : Type 0 where
  pub rank_id : ℤ
  pub ip : String
  pub port : ℕ
