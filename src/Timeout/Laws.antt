-- ===== src/Timeout/Laws.antt =====
-- `_dstc_get_timeout_msec_rel` of dstc.c and the two time stamps of rmc.
use dstc.Base.{ℕ, ◌+◌, ◌-◌, ◌/◌, ◌^◌, ◌≤◌, ◌<◌, ◌≡◌, ◌⊎◌, Option, none, some, arith, done}
use dstc.Rmc.{Rmc, System}
use dstc.Context.{Context}
use dstc.Setup.Laws.{
  unlock-lock, lock_and_init_context_lem, pub_ctx-lock_context, sub_ctx-lock_context,
}
use dstc.Timeout.{shortest, time_left, get_next_timeout_abs, get_timeout_msec_rel}

time_left-bound :
    (pub_ts sub_ts : Option ℕ) (now ts : ℕ)
    → (pub_ts ≡ some ts) ⊎ (sub_ts ≡ some ts)
    → ts / 1000 - now + 1 < 2 ^ 31
    → (time_left (shortest pub_ts sub_ts) now ≤ ts / 1000 - now + 1)
      × (time_left (shortest pub_ts sub_ts) now < 2 ^ 31)
unfolding time_left shortest
time_left-bound none none now ts e h = ground arith
time_left-bound none (some s) now ts e h = ground arith
time_left-bound (some p) none now ts e h = ground arith
time_left-bound (some p) (some s) now ts e h = ground arith

module _ {Pub Sub : Type 0} (rmc : Rmc Pub Sub) (sys : System) (ctx : Context Pub Sub)
    (pub_ctx : Pub) (sub_ctx : Sub) (up : ctx.pub_ctx ≡ some pub_ctx)
    (down : ctx.sub_ctx ≡ some sub_ctx) where
  -- Where the context is set up, the timeout is read off rmc and nothing changes.
  pub get_timeout_msec_rel_lem :
      (now : ℕ)
      → get_timeout_msec_rel rmc sys ctx now
        ≡ done (
          time_left
              (shortest (rmc.pub_timeout_get_next pub_ctx) (rmc.sub_timeout_get_next sub_ctx))
              now,
          ctx,
        )
  unfolding get_timeout_msec_rel get_next_timeout_abs
  get_timeout_msec_rel_lem now = simp (
    lock_and_init_context_lem rmc sys ctx up,
    pub_ctx-lock_context,
    sub_ctx-lock_context,
    up,
    down,
    unlock-lock,
  )

  -- On a context that is set up the time to wait is found and the context unchanged; it is not
  -- negative as an int and ends at most one millisecond after any time stamp that the publisher or
  -- the subscriber asks for, if that wait fits an int.
  pub get_timeout_msec_rel-bound :
      (now ts : ℕ)
      → (rmc.pub_timeout_get_next pub_ctx ≡ some ts) ⊎ (rmc.sub_timeout_get_next sub_ctx ≡ some ts)
      → ts / 1000 - now + 1 < 2 ^ 31
      → (t : ℕ) × (get_timeout_msec_rel rmc sys ctx now ≡ done (t, ctx))
        × (t ≤ ts / 1000 - now + 1)
        × (t < 2 ^ 31)
  get_timeout_msec_rel-bound now ts e h =
      let bound =
        time_left-bound (rmc.pub_timeout_get_next pub_ctx) (rmc.sub_timeout_get_next sub_ctx) now ts
          e h in
      (_, get_timeout_msec_rel_lem now, bound.0, bound.1)
