-- ===== src/ClusterConfig.antt =====
-- `ClusterConfig` of even-http/ps/core/cluster_config.h and cluster_config.cc: the settings, their
-- first values and their setters. `check_ip` is CommUtil::CheckIp; `init` has a Bool, true if it
-- throws. Reading the scheduler's host before it is set is `none` in the field.
use rpc.Common.{
  ℕ, ◌≡◌, refl, Bool, true, false, String, Option, none, some, List, [], ◌∷◌, ◌∙◌, if◌then◌else◌,
  arith,
}

pub record ClusterConfig : Type 0 where
  pub worker_num : ℕ
  pub server_num : ℕ
  pub scheduler_host : Option String
  pub scheduler_port : ℕ
  pub heartbeat_interval : ℕ
  pub heartbeat_timeout : ℕ
  pub cluster_available_timeout : ℕ
  pub connect_interval : ℕ
  pub scheduler_timeout : ℕ

abbrev default : ClusterConfig
default = record {
  worker_num = 0;
  server_num = 0;
  scheduler_host = none;
  scheduler_port = 0;
  heartbeat_interval = 1;
  heartbeat_timeout = 30;
  cluster_available_timeout = 30000;
  connect_interval = 100;
  scheduler_timeout = 18000;
}

module _ (check_ip : String → Bool) where
  unfoldable init : ℕ → ℕ → String → ℕ → ClusterConfig → ClusterConfig × Bool
  init worker_num server_num scheduler_host scheduler_port c =
      let numbered : ClusterConfig = record c {
        worker_num = worker_num;
        server_num = server_num;
      } in
      if check_ip scheduler_host
      then (
        record numbered { scheduler_host = some scheduler_host; scheduler_port = scheduler_port },
        false,
      )
      else (numbered, true)

-- The setters; that of the heartbeat's timeout writes the interval.
abbrev set_heartbeat_interval : ℕ → ClusterConfig → ClusterConfig
set_heartbeat_interval value c = record c { heartbeat_interval = value }

abbrev set_heartbeat_timeout : ℕ → ClusterConfig → ClusterConfig
set_heartbeat_timeout value c = record c { heartbeat_interval = value }

abbrev set_cluster_available_timeout : ℕ → ClusterConfig → ClusterConfig
set_cluster_available_timeout value c = record c { cluster_available_timeout = value }

abbrev set_connect_interval : ℕ → ClusterConfig → ClusterConfig
set_connect_interval value c = record c { connect_interval = value }

abbrev set_scheduler_timeout : ℕ → ClusterConfig → ClusterConfig
set_scheduler_timeout value c = record c { scheduler_timeout = value }

data Setting : Type 0 where
  sets_nodes : ℕ → ℕ → String → ℕ → Setting
  sets_heartbeat_interval sets_heartbeat_timeout sets_cluster_available_timeout : ℕ → Setting
  sets_connect_interval sets_scheduler_timeout : ℕ → Setting

module _ (check_ip : String → Bool) where
  abbrev apply : Setting → ClusterConfig → ClusterConfig
  apply (sets_nodes workers servers host port) c = (init check_ip workers servers host port c).0
  apply (sets_heartbeat_interval value) c = set_heartbeat_interval value c
  apply (sets_heartbeat_timeout value) c = set_heartbeat_timeout value c
  apply (sets_cluster_available_timeout value) c = set_cluster_available_timeout value c
  apply (sets_connect_interval value) c = set_connect_interval value c
  apply (sets_scheduler_timeout value) c = set_scheduler_timeout value c

  abbrev apply_all : List Setting → ClusterConfig → ClusterConfig
  apply_all [] c = c
  apply_all (s ∷ settings) c = apply_all settings (apply s c)

  apply_timeout :
      (s : Setting) (c : ClusterConfig) → (apply s c).heartbeat_timeout ≡ c.heartbeat_timeout
  unfolding init
  apply_timeout (sets_nodes workers servers host port) c = ground arith
  apply_timeout (sets_heartbeat_interval value) c = refl
  apply_timeout (sets_heartbeat_timeout value) c = refl
  apply_timeout (sets_cluster_available_timeout value) c = refl
  apply_timeout (sets_connect_interval value) c = refl
  apply_timeout (sets_scheduler_timeout value) c = refl

  -- Whatever is set, the timeout of heartbeats stays what it was: nothing changes it.
  apply_all_timeout :
      (settings : List Setting) (c : ClusterConfig)
      → (apply_all settings c).heartbeat_timeout ≡ c.heartbeat_timeout
  apply_all_timeout [] c = refl
  apply_all_timeout (s ∷ settings) c = apply_all_timeout settings (apply s c) ∙ apply_timeout s c
