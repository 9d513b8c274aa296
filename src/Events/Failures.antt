-- ===== src/Events/Failures.antt =====
-- dstc_process_events of dstc.c before the setup, and with a timeout of more than 2147
-- milliseconds.
use dstc.Base.{ℕ, suc, ◌+◌, ◌^◌, ◌≤◌, ◌<◌, ◌≡◌, refl, some, none, arith, Outcome, done, exit, fault}
use dstc.Rmc.{Rmc, System}
use dstc.Context.{Context, lock_context}
use dstc.Timeout.{shortest, time_left}
use dstc.Timeout.Laws.{get_timeout_msec_rel_lem}
use dstc.Epoll.{
  Wait, interrupted, failed, ready, Os, Io, wait_again, wait_for_events, process_ready,
  process_single_event,
}
use dstc.Events.{
  msec, add_msec, process_events_now, process_events_for, choose_timeout, process_events_until,
  process_events,
}

module _ {Pub Sub W : Type 0} (rmc : Rmc Pub Sub) (sys : System) (io : Io (Context Pub Sub))
    (os : Os W) where
  wait_again-failed :
      (again : W → Outcome (Wait × W)) (r : Wait × W)
      → r.0 ≡ failed
      → wait_again io os again r ≡ done (failed, r.1)
  unfolding wait_again
  wait_again-failed again (interrupted, w) h = cc
  wait_again-failed again (failed, w) h = refl
  wait_again-failed again (ready events, w) h = cc

  process_single_event-failed :
      (retries : ℕ) (ctx : Context Pub Sub) (w : W) (timeout_msec : ℕ)
      → ctx.epoll_fd ≡ none
      → (os.epoll_wait none timeout_msec w).0 ≡ failed
      → process_single_event io os (suc retries) ctx w timeout_msec ≡ exit 255
  unfolding process_single_event wait_for_events process_ready
  process_single_event-failed retries ctx w timeout_msec no_fd bad = rw (
    no_fd,
    wait_again-failed (wait_for_events io os retries none timeout_msec)
        (os.epoll_wait none timeout_msec w) bad,
  )

  -- Where no descriptor was set up, and epoll_wait fails on the descriptor -1,
  -- dstc_process_events(0) sets nothing up and ends the process.
  pub process_events-no_setup :
      (retries fuel : ℕ) (ctx : Context Pub Sub) (w : W)
      → ctx.epoll_fd ≡ none
      → ((w : W) → (os.epoll_wait none 0 w).0 ≡ failed)
      → process_events rmc sys io os (suc retries) (suc fuel) ctx w 0 ≡ exit 255
  unfolding process_events process_events_now lock_context
  process_events-no_setup retries fuel ctx w no_fd bad =
      rw
        (process_single_event-failed retries (record ctx { lock = ctx.lock + 1 }) w 0 no_fd (bad w))

  -- On a context that is set up and where rmc waits for nothing, dstc_process_events with a timeout
  -- from 2148 to 2^31 - 1 milliseconds overflows the product of two ints that the deadline for the
  -- lock is made from.
  pub process_events-overflow :
      (retries fuel : ℕ) (ctx : Context Pub Sub) (pub_ctx : Pub) (sub_ctx : Sub) (w : W)
      (timeout_rel : ℕ)
      → ctx.pub_ctx ≡ some pub_ctx
      → ctx.sub_ctx ≡ some sub_ctx
      → rmc.pub_timeout_get_next pub_ctx ≡ none
      → rmc.sub_timeout_get_next sub_ctx ≡ none
      → 2148 ≤ timeout_rel
      → timeout_rel < 2 ^ 31
      → process_events rmc sys io os retries fuel ctx w timeout_rel ≡ fault
  unfolding process_events process_events_until process_events_for choose_timeout add_msec shortest
      time_left
  process_events-overflow retries fuel ctx pub_ctx sub_ctx w timeout_rel up down p s long int =
      let (abs_time, later) = os.clock_gettime w in
      let left = get_timeout_msec_rel_lem rmc sys ctx pub_ctx sub_ctx up down (msec abs_time) in
      rw (rw (p, s) at left) (ground arith)
