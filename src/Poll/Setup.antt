-- ===== src/Poll/Setup.antt =====
-- dstc.c in the build without epoll: dstc_setup_internal, which empties the table of descriptors, and the
-- functions on top of it.
use dstc.Base.{ℕ, none, some, map, if◌then◌else◌, Outcome, done, ◌>>=◌}
use dstc.Rmc.{Rmc, System}
use dstc.Context.{deref, context_initialized}
use dstc.Setup.{
  SetupArgs, suspend_traffic_threshold, restart_traffic_threshold, pub_config, sub_config, announce,
  env_args,
}
use dstc.Poll.{free_elem, Uthash, PollContext, lock, unlock}

-- The calls of rmc in the setup that open sockets, and may call poll_add_pub and poll_add_sub.
pub record Activation (Ctx : Type 0) : Type 0 where
  pub pub_activate : Ctx → Outcome Ctx
  pub sub_activate : Ctx → Outcome Ctx

module _ {Pub Sub H : Type 0} (hash : Uthash H) where
  -- `ctx->poll_hash = 0`, and the loop over all elements
  unfoldable pub reset_elems : PollContext Pub Sub H → PollContext Pub Sub H
  reset_elems ctx = record ctx {
    poll_elem_array = map (λ e. free_elem) ctx.poll_elem_array;
    poll_hash = hash.empty;
  }

  module _ (rmc : Rmc Pub Sub) (act : Activation (PollContext Pub Sub H)) where
    unfoldable pub poll_announce : PollContext Pub Sub H → Outcome (PollContext Pub Sub H)
    poll_announce ctx = do
      pub_ctx ← deref ctx.base.pub_ctx
      done
          (record ctx { base = record ctx.base { pub_ctx = some (announce rmc ctx.base pub_ctx) } })

    -- The part from `rmc_pub_init_context` on.
    unfoldable pub poll_setup_contexts :
        PollContext Pub Sub H → SetupArgs → Outcome (ℕ × PollContext Pub Sub H)
    poll_setup_contexts ctx a = do
      pub_ctx ← deref (rmc.pub_init_context (pub_config rmc a))
      let throttled = rmc.pub_throttling suspend_traffic_threshold restart_traffic_threshold pub_ctx
      sub_ctx ← deref (rmc.sub_init_context (sub_config rmc a (rmc.pub_node_id throttled)))
      let ttl = rmc.pub_set_multicast_ttl a.mcast_ttl throttled
      ctx ←
          act.pub_activate
            (record ctx { base = record ctx.base { pub_ctx = some ttl; sub_ctx = some sub_ctx } })
      ctx ← act.sub_activate ctx
      ctx ← poll_announce ctx
      done (0, ctx)

    unfoldable pub poll_setup_internal :
        PollContext Pub Sub H → SetupArgs → Outcome (ℕ × PollContext Pub Sub H)
    poll_setup_internal ctx a =
        poll_setup_contexts
          (record (reset_elems ctx) {
            base = record ctx.base {
              remote_node_ind = 0;
              callback_ind = 0;
              pub_buffer_ind = 0;
              pub_ctx = none;
              sub_ctx = none;
            };
          })
          a

    module _ (sys : System) where
      -- `dstc_setup()`, which is `dstc_setup_epoll(-1)`
      unfoldable pub poll_setup : PollContext Pub Sub H → Outcome (ℕ × PollContext Pub Sub H)
      poll_setup ctx = do
        (res, ctx) ← poll_setup_internal (lock hash ctx) (env_args rmc sys none)
        done (res, unlock hash ctx)

      -- `_dstc_lock_and_init_context`
      unfoldable pub poll_lock_and_init :
          PollContext Pub Sub H → Outcome (ℕ × PollContext Pub Sub H)
      poll_lock_and_init ctx =
          if context_initialized (lock hash ctx).base
          then done (0, lock hash ctx)
          else poll_setup (lock hash ctx)
