-- ===== src/Tests/Network.antt =====
-- A network library for the tests: it keeps what it is given, and is suspended on request.
use dstc.Base.{ℕ, ◌+◌, true, List, [], ◌∷◌, Option, none, some, Outcome, done}
use dstc.Rmc.{Rmc, System}
use dstc.Context.{Context, default_context}
use dstc.Dispatch.{Invocation}

pub record TestPub : Type 0 where
  pub node : ℕ
  pub suspended : ℕ
  pub packets : List (List ℕ)

pub record TestSub : Type 0 where
  pub ready : List (List ℕ)
  pub control : List (List ℕ)

abbrev pub head_packet : List (List ℕ) → Option (List ℕ)
head_packet [] = none
head_packet (p ∷ ps) = some p

abbrev pub tail_packets : List (List ℕ) → List (List ℕ)
tail_packets [] = []
tail_packets (p ∷ ps) = ps

abbrev pub test_rmc : Rmc TestPub TestSub
test_rmc = record {
  max_payload = 64;
  pub_init_context = λ c. some (record { node = c.node_id; suspended = 0; packets = [] });
  sub_init_context = λ c. some (record { ready = []; control = [] });
  pub_throttling = λ a b p. p;
  pub_set_multicast_ttl = λ n p. p;
  pub_activate_context = λ p. p;
  sub_activate_context = λ s. s;
  pub_set_announce_interval = λ n p. p;
  pub_node_id = λ p. p.node;
  pub_get_socket_count = λ p. 2;
  sub_get_socket_count = λ s. 1;
  pub_traffic_suspended = λ p. p.suspended;
  pub_queue_packet = λ bytes p. (0, record p { packets = bytes ∷ p.packets });
  sub_write_control_message_by_node_id = λ n bytes s. record s { control = bytes ∷ s.control };
  sub_get_next_dispatch_ready = λ s. head_packet s.ready;
  sub_packet_dispatched_keep_payload = λ s. record s { ready = tail_packets s.ready };
  pub_timeout_get_next = λ p. some 7000;
  sub_timeout_get_next = λ s. none;
}

-- One that never waits for a time.
abbrev pub idle_rmc : Rmc TestPub TestSub
idle_rmc = record test_rmc { pub_timeout_get_next = λ p. none }

abbrev pub test_sys : System
test_sys = record {
  env_node_id = none;
  env_max_nodes = none;
  env_mcast_group_addr = none;
  env_mcast_iface_addr = none;
  env_mcast_group_port = none;
  env_control_listen_iface = none;
  env_control_listen_port = none;
  env_mcast_ttl = none;
  atoi = λ s. 0;
  strtoul = λ s. 0;
  epoll_create = some 3;
}

abbrev pub node_7 : TestPub
node_7 = record { node = 7; suspended = 0; packets = [] }

abbrev pub no_packets : TestSub
no_packets = record { ready = []; control = [] }

-- A node that is set up, before anything is registered.
abbrev pub fresh : Context TestPub TestSub
fresh = record (default_context 64) {
  epoll_fd = some 3;
  pub_ctx = some node_7;
  sub_ctx = some no_packets;
}

abbrev pub collecting : Context TestPub TestSub
collecting = record fresh { pub_is_buffering = true }

-- "hi"
abbrev pub hi : List ℕ
hi = b'h' ∷ b'i' ∷ []

-- An application whose functions note their length argument in the callback counter.
abbrev pub counting : Invocation → Context TestPub TestSub → Outcome (Context TestPub TestSub)
counting inv ctx =
    done (record ctx { client_callback_count = ctx.client_callback_count + inv.payload_len })
