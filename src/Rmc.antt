-- ===== src/Rmc.antt =====
-- What dstc.c takes from outside the repository: the reliable multicast library (rmc), the
-- environment and the system calls. All of it is a parameter of the model. `Pub` and `Sub` stand for
-- the objects behind `rmc_pub_context_t*` and `rmc_sub_context_t*`.
use dstc.Base.{ℕ, List, Option}

-- The arguments of `rmc_pub_init_context`. An `int` is its bit pattern; a null `char*` is `none`.
pub record PubConfig : Type 0 where
  pub node_id : ℕ
  pub multicast_group_addr : List ℕ
  pub multicast_port : ℕ
  pub multicast_iface_addr : Option (List ℕ)
  pub control_listen_iface_addr : Option (List ℕ)
  pub control_listen_port : ℕ

pub record SubConfig : Type 0 where
  pub node_id : ℕ
  pub multicast_group_addr : List ℕ
  pub multicast_port : ℕ
  pub multicast_iface_addr : Option (List ℕ)

-- The calls of rmc, by the names that dstc.c gives them. `none` from the two init calls is a pointer
-- that they leave null. A call that changes an rmc object returns the new one.
pub record Rmc (Pub Sub : Type 0) : Type 0 where
  -- RMC_MAX_PAYLOAD
  pub max_payload : ℕ
  pub pub_init_context : PubConfig → Option Pub
  pub sub_init_context : SubConfig → Option Sub
  pub pub_throttling : ℕ → ℕ → Pub → Pub
  pub pub_set_multicast_ttl : ℕ → Pub → Pub
  pub pub_activate_context : Pub → Pub
  pub sub_activate_context : Sub → Sub
  pub pub_set_announce_interval : ℕ → Pub → Pub
  pub pub_node_id : Pub → ℕ
  pub pub_get_socket_count : Pub → ℕ
  pub sub_get_socket_count : Sub → ℕ
  pub pub_traffic_suspended : Pub → ℕ
  pub pub_queue_packet : List ℕ → Pub → ℕ × Pub
  pub sub_write_control_message_by_node_id : ℕ → List ℕ → Sub → Sub
  -- the payload of the packet at the head of the dispatch queue
  pub sub_get_next_dispatch_ready : Sub → Option (List ℕ)
  pub sub_packet_dispatched_keep_payload : Sub → Sub
  -- `none` is the time stamp -1
  pub pub_timeout_get_next : Pub → Option ℕ
  pub sub_timeout_get_next : Sub → Option ℕ

-- `getenv` at the names of dstc_internal.h, and what is done with the strings.
pub record System : Type 0 where
  pub env_node_id : Option (List ℕ)
  pub env_max_nodes : Option (List ℕ)
  pub env_mcast_group_addr : Option (List ℕ)
  pub env_mcast_iface_addr : Option (List ℕ)
  pub env_mcast_group_port : Option (List ℕ)
  pub env_control_listen_iface : Option (List ℕ)
  pub env_control_listen_port : Option (List ℕ)
  pub env_mcast_ttl : Option (List ℕ)
  pub atoi : List ℕ → ℕ
  pub strtoul : List ℕ → ℕ
  -- `epoll_create(1)`; `none` is -1
  pub epoll_create : Option ℕ
