-- ===== src/Setup.antt =====
-- dstc.c, the setup of the context: dstc_setup_internal, dstc_setup_epoll, dstc_setup, dstc_setup2,
-- and the two ways to take the lock that set the context up on the way. Logging is left out, and so
-- are the calls that hand rmc the callbacks: the modules below model what those callbacks do.
pub mod Laws
pub mod Sound
use dstc.Base.{
  ℕ, Bool, true, false, ◌||◌, not, List, [], ◌∷◌, Option, none, some, ◌==◌, if◌then◌else◌, Outcome,
  done, ◌>>=◌,
}
use dstc.Rmc.{Rmc, System, PubConfig, SubConfig}
use dstc.Context.{Context, deref, context_initialized, lock_context, unlock_context}

-- errno values that dstc.c returns.
abbrev pub einval : ℕ
einval = 22

abbrev pub ebusy : ℕ
ebusy = 16

abbrev pub etime : ℕ
etime = 62

abbrev pub eagain : ℕ
eagain = 11

abbrev pub suspend_traffic_threshold : ℕ
suspend_traffic_threshold = 3000

abbrev pub restart_traffic_threshold : ℕ
restart_traffic_threshold = 2800

-- "239.40.41.42"
abbrev pub default_mcast_group_address : List ℕ
default_mcast_group_address =
    b'2' ∷ b'3' ∷ b'9' ∷ b'.' ∷ b'4' ∷ b'0' ∷ b'.' ∷ b'4' ∷ b'1' ∷ b'.' ∷ b'4' ∷ b'2' ∷ []

abbrev pub default_mcast_group_port : ℕ
default_mcast_group_port = 4723

abbrev pub default_mcast_ttl : ℕ
default_mcast_ttl = 1

-- The arguments of dstc_setup_internal. `max_dstc_nodes` is only logged there, and is left out.
pub record SetupArgs : Type 0 where
  pub node_id : ℕ
  pub multicast_group_addr : List ℕ
  pub multicast_port : ℕ
  pub multicast_iface_addr : Option (List ℕ)
  pub mcast_ttl : ℕ
  pub control_listen_iface_addr : Option (List ℕ)
  pub control_listen_port : ℕ
  pub epoll_fd : Option ℕ

-- `p ? f(p) : d`
abbrev pub or_default {ℓ κ} : {A : Type ℓ} {B : Type κ} → Option A → (A → B) → B → B
or_default none f d = d
or_default (some a) f d = f a

module _ {Pub Sub : Type 0} (rmc : Rmc Pub Sub) where
  unfoldable pub pub_config : SetupArgs → PubConfig
  pub_config a = record {
    node_id = a.node_id;
    multicast_group_addr = a.multicast_group_addr;
    multicast_port = a.multicast_port;
    multicast_iface_addr = a.multicast_iface_addr;
    control_listen_iface_addr = a.control_listen_iface_addr;
    control_listen_port = a.control_listen_port;
  }

  unfoldable pub sub_config : SetupArgs → ℕ → SubConfig
  sub_config a node_id = record {
    node_id = node_id;
    multicast_group_addr = a.multicast_group_addr;
    multicast_port = a.multicast_port;
    multicast_iface_addr = a.multicast_iface_addr;
  }

  -- Announcements start only where a client function or a callback is declared.
  unfoldable pub announce : Context Pub Sub → Pub → Pub
  announce ctx pub_ctx =
      if not (ctx.client_func_ind == 0) || not (ctx.client_callback_count == 0)
      then rmc.pub_set_announce_interval 200000 pub_ctx
      else pub_ctx

  -- The part behind the checks of the arguments. A null context from rmc is dereferenced by it.
  unfoldable pub setup_contexts : Context Pub Sub → SetupArgs → Outcome (ℕ × Context Pub Sub)
  setup_contexts ctx a = do
    pub_ctx ← deref (rmc.pub_init_context (pub_config a))
    let throttled = rmc.pub_throttling suspend_traffic_threshold restart_traffic_threshold pub_ctx
    sub_ctx ← deref (rmc.sub_init_context (sub_config a (rmc.pub_node_id throttled)))
    let active = rmc.pub_activate_context (rmc.pub_set_multicast_ttl a.mcast_ttl throttled)
    done (
      0,
      record ctx {
        pub_ctx = some (announce ctx active);
        sub_ctx = some (rmc.sub_activate_context sub_ctx);
      },
    )

  -- Neither the registered server and client functions nor the buffering mode are touched.
  unfoldable pub setup_internal : Context Pub Sub → SetupArgs → Outcome (ℕ × Context Pub Sub)
  setup_internal ctx a = elim a.epoll_fd [
    | none ↦ done (einval, ctx)
    | some fd ↦
        setup_contexts
          (record ctx {
            epoll_fd = some fd;
            remote_node_ind = 0;
            callback_ind = 0;
            pub_buffer_ind = 0;
            pub_ctx = none;
            sub_ctx = none;
          })
          a
  ]

  module _ (sys : System) where
    unfoldable pub env_args : Option ℕ → SetupArgs
    env_args epoll_fd = record {
      node_id = or_default sys.env_node_id sys.strtoul 0;
      multicast_group_addr =
          or_default sys.env_mcast_group_addr (λ s. s) default_mcast_group_address;
      multicast_port = or_default sys.env_mcast_group_port sys.atoi default_mcast_group_port;
      multicast_iface_addr = sys.env_mcast_iface_addr;
      mcast_ttl = or_default sys.env_mcast_ttl sys.atoi default_mcast_ttl;
      control_listen_iface_addr = sys.env_control_listen_iface;
      control_listen_port = or_default sys.env_control_listen_port sys.atoi 0;
      epoll_fd = epoll_fd;
    }

    unfoldable pub setup_epoll : Context Pub Sub → Option ℕ → Outcome (ℕ × Context Pub Sub)
    setup_epoll ctx epoll_fd_arg = do
      (res, ctx) ← setup_internal (lock_context ctx) (env_args epoll_fd_arg)
      done (res, unlock_context ctx)

    unfoldable pub setup : Context Pub Sub → Outcome (ℕ × Context Pub Sub)
    setup ctx = setup_epoll ctx sys.epoll_create

    -- `dstc_setup2`; `args.epoll_fd` is `epoll_fd_arg`.
    unfoldable pub setup2 : Context Pub Sub → SetupArgs → Outcome (ℕ × Context Pub Sub)
    setup2 ctx args = if context_initialized ctx then done (ebusy, ctx) else do
      let fd = or_default args.epoll_fd (λ n. some n) sys.epoll_create
      (res, ctx) ← setup_internal (lock_context ctx) (record args { epoll_fd = fd })
      done (res, unlock_context ctx)

    -- `_dstc_lock_and_init_context`
    unfoldable pub lock_and_init_context : Context Pub Sub → Outcome (ℕ × Context Pub Sub)
    lock_and_init_context ctx =
        if context_initialized (lock_context ctx)
        then done (0, lock_context ctx)
        else setup (lock_context ctx)

    -- Most API functions take the lock, set the context up if need be, run a body that ignores
    -- whether that worked, and let the lock go.
    abbrev pub locked {ℓ} :
        {A : Type ℓ}
        → Context Pub Sub
        → (Context Pub Sub → Outcome (A × Context Pub Sub))
        → Outcome (A × Context Pub Sub)
    locked ctx body = do
      (_, ctx) ← lock_and_init_context ctx
      (r, ctx) ← body ctx
      done (r, unlock_context ctx)
