-- ===== src/Events.antt =====
-- dstc.c, the event loop: dstc_process_events, dstc_process_pending_events, dstc_process_timeout and
-- the lock with a deadline; and dstc_process_epoll_result of epoll.c. An `int` is its bit pattern.
pub mod Laws
pub mod Failures
pub mod Sound
pub mod Waits
pub mod Turns
pub mod Returns
use dstc.Base.{
  ℕ, zero, suc, ◌+◌, ◌-◌, ◌*◌, ◌/◌, ◌%◌, ◌^◌, Bool, true, false, ◌&&◌, not, List, [], ◌∷◌, Option,
  none, some, ltb, ◌==◌, if◌then◌else◌, Outcome, done, exit, fault, out_of_fuel, ◌>>=◌,
}
use dstc.Wire.{u32}
use dstc.Rmc.{Rmc, System}
use dstc.Context.{Context, context_initialized, lock_context, unlock_context}
use dstc.Setup.{etime, eagain, setup, locked}
use dstc.Timeout.{minus_one, int_lt, get_timeout_msec_rel}
use dstc.Epoll.{Event, Os, Io, process_epoll_result, process_single_event}

abbrev pub enotblk : ℕ
enotblk = 15

-- `tv_sec * 1000 + tv_nsec / 1000000`
abbrev pub msec : ℕ × ℕ → ℕ
msec (tv_sec, tv_nsec) = tv_sec * 1000 + tv_nsec / 1000000

-- The time `timeout_rel` milliseconds later. The product is one of `int`s, whose overflow is undefined.
unfoldable pub add_msec : ℕ × ℕ → ℕ → Outcome (ℕ × ℕ)
add_msec (tv_sec, tv_nsec) timeout_rel =
    let nsec = tv_nsec + timeout_rel * 1000000 in
    if ltb (timeout_rel * 1000000) (2 ^ 31)
    then done (tv_sec + nsec / 1000000000, nsec % 1000000000)
    else fault

module _ {Pub Sub W : Type 0} (rmc : Rmc Pub Sub) (sys : System) (io : Io (Context Pub Sub))
    (os : Os W) where
  unfoldable pub again_or_done : ℕ × Context Pub Sub → Outcome (ℕ × Context Pub Sub)
  again_or_done (res, ctx) = done ((if res == eagain then eagain else 0), ctx)

  unfoldable pub sub_timeout : ℕ × Context Pub Sub → Outcome (ℕ × Context Pub Sub)
  sub_timeout (pub_res, ctx) =
      if pub_res == eagain then done (eagain, ctx) else io.sub_timeout_process ctx >>= again_or_done

  -- `_dstc_process_timeout`: the subscriber is not asked if the publisher is to be asked again.
  unfoldable pub process_timeout_locked : Context Pub Sub → Outcome (ℕ × Context Pub Sub)
  process_timeout_locked ctx = io.pub_timeout_process ctx >>= sub_timeout

  -- `_dstc_process_timeout(ctx); _dstc_unlock_context(ctx); return res;`
  unfoldable pub timeout_and_unlock : ℕ → Context Pub Sub → W → Outcome (ℕ × Context Pub Sub × W)
  timeout_and_unlock res ctx w = do
    (r, ctx) ← process_timeout_locked ctx
    done (res, unlock_context ctx, w)

  -- The loop of dstc_process_pending_events, until there is no event; two bounds, on how often one
  -- wait may be interrupted and on the rounds.
  unfoldable pub pending_round :
      (Context Pub Sub → W → Outcome (Context Pub Sub × W))
      → ℕ × Context Pub Sub × W
      → Outcome (Context Pub Sub × W)
  pending_round again (res, ctx, w) = if res == etime then done (ctx, w) else again ctx w

  unfoldable pub process_pending : ℕ → ℕ → Context Pub Sub → W → Outcome (Context Pub Sub × W)
  process_pending retries zero ctx w = out_of_fuel
  process_pending retries (suc fuel) ctx w =
      process_single_event io os retries ctx w 0 >>= pending_round (process_pending retries fuel)

  unfoldable pub process_pending_events :
      ℕ → ℕ → Context Pub Sub → W → Outcome ((ℕ × W) × Context Pub Sub)
  process_pending_events retries fuel ctx w =
      locked rmc sys ctx λ ctx. do (ctx, w) ← process_pending retries fuel ctx w; done ((0, w), ctx)

  -- dstc_process_timeout
  unfoldable pub process_timeout : Context Pub Sub → Outcome (ℕ × Context Pub Sub)
  process_timeout ctx = locked rmc sys ctx process_timeout_locked

  -- dstc_process_epoll_result
  unfoldable pub process_own_epoll_result : Context Pub Sub → Event → Outcome (ℕ × Context Pub Sub)
  process_own_epoll_result ctx event =
      locked rmc sys ctx λ ctx. do ctx ← process_epoll_result io ctx event; done (0, ctx)

  -- `_dstc_lock_context_timeout`: ENOTBLK if the lock was free, 0 if it became free in time.
  unfoldable pub lock_context_timeout : Context Pub Sub → W → ℕ × ℕ → ℕ × Context Pub Sub × W
  lock_context_timeout ctx w abs_timeout =
      let (free, w) = os.mutex_trylock w in
      let (freed, w') = os.mutex_timedlock abs_timeout w in
      if free
      then (enotblk, lock_context ctx, w)
      else if freed
      then (0, lock_context ctx, w')
      else (etime, ctx, w')

  unfoldable pub init_locked : ℕ × Context Pub Sub × W → Outcome (ℕ × Context Pub Sub × W)
  init_locked (ret, ctx, w) =
      if not (ret == 0) && not (ret == enotblk)
      then done (ret, ctx, w)
      else if context_initialized ctx
      then done (ret, ctx, w)
      else setup rmc sys ctx >>= λ r. done (r.0, r.1, w)

  -- `_dstc_lock_and_init_context_timeout`
  unfoldable pub lock_and_init_context_timeout :
      Context Pub Sub → W → ℕ × ℕ → Outcome (ℕ × Context Pub Sub × W)
  lock_and_init_context_timeout ctx w abs_timeout =
      init_locked (lock_context_timeout ctx w abs_timeout)

  -- dstc_process_events(0): events are processed until there are none.
  unfoldable pub now_round :
      (Context Pub Sub → W → Outcome (ℕ × Context Pub Sub × W))
      → ℕ × Context Pub Sub × W
      → Outcome (ℕ × Context Pub Sub × W)
  now_round again (res, ctx, w) =
      if res == etime then timeout_and_unlock etime ctx w else again (unlock_context ctx) w

  unfoldable pub process_events_now :
      ℕ → ℕ → Context Pub Sub → W → Outcome (ℕ × Context Pub Sub × W)
  process_events_now retries zero ctx w = out_of_fuel
  process_events_now retries (suc fuel) ctx w =
      process_single_event io os retries (lock_context ctx) w 0
      >>= now_round (process_events_now retries fuel)

  -- One round of that loop, up to where the lock is let go; whether dstc_process_events(0) returns.
  unfoldable pub end_turn : ℕ × Context Pub Sub × W → Outcome (Bool × Context Pub Sub × W)
  end_turn (res, ctx, w) =
      if res == etime
      then timeout_and_unlock etime ctx w >>= (λ r. done (true, r.1, r.2))
      else done (false, unlock_context ctx, w)

  unfoldable pub now_turn : ℕ → Context Pub Sub → W → Outcome (Bool × Context Pub Sub × W)
  now_turn retries ctx w = process_single_event io os retries (lock_context ctx) w 0 >>= end_turn

  -- The end of dstc_process_events: the timers run if there was no event.
  unfoldable pub finish_event : ℕ × Context Pub Sub × W → Outcome (ℕ × Context Pub Sub × W)
  finish_event (retval, ctx, w) =
      if retval == etime
      then timeout_and_unlock retval ctx w
      else done (retval, unlock_context ctx, w)

  -- How long is left to wait, once the lock is taken; it is computed anew after a wait for the lock.
  unfoldable pub remaining : ℕ → ℕ → ℕ → W → ℕ × W
  remaining lock_res timeout_rel next_abs w =
      let (now, w') = os.clock_gettime w in
      let late = u32 (next_abs + (2 ^ 32 - u32 (msec now))) in
      if lock_res == enotblk
      then ((if int_lt timeout_rel 0 then 0 else timeout_rel), w)
      else ((if int_lt late 0 then 0 else late), w')

  unfoldable pub process_events_locked :
      ℕ → ℕ → ℕ → ℕ × Context Pub Sub × W → Outcome (ℕ × Context Pub Sub × W)
  process_events_locked retries timeout_rel next_abs (lock_res, ctx, w) =
      let (left, w') = remaining lock_res timeout_rel next_abs w in
      if lock_res == etime
      then timeout_and_unlock etime ctx w
      else process_single_event io os retries ctx w' left >>= finish_event

  -- `timeout_rel` is not -1 any more.
  unfoldable pub process_events_for :
      ℕ → ℕ × ℕ → ℕ → ℕ → Context Pub Sub → W → Outcome (ℕ × Context Pub Sub × W)
  process_events_for retries abs_time timeout_rel next_abs ctx w =
      if not (int_lt 0 timeout_rel)
      then process_single_event io os retries (lock_context ctx) w 0
        >>= (λ r. timeout_and_unlock etime r.1 r.2)
      else add_msec abs_time timeout_rel >>= λ deadline.
          lock_and_init_context_timeout ctx w deadline
          >>= process_events_locked retries timeout_rel next_abs

  -- The shorter of the caller's timeout and that of DSTC.
  unfoldable pub choose_timeout : ℕ → ℕ → ℕ
  choose_timeout timeout_rel next_rel =
      if timeout_rel == minus_one
      then next_rel
      else if not (next_rel == minus_one) && int_lt next_rel timeout_rel
      then next_rel
      else timeout_rel

  -- After an unlimited wait, whatever the result of the wait was.
  unfoldable pub zero_and_unlock : ℕ × Context Pub Sub × W → Outcome (ℕ × Context Pub Sub × W)
  zero_and_unlock (res, ctx, w) = done (0, unlock_context ctx, w)

  unfoldable pub process_events_until :
      ℕ → ℕ × ℕ → ℕ → ℕ → Context Pub Sub → W → Outcome (ℕ × Context Pub Sub × W)
  process_events_until retries abs_time timeout_rel next_rel ctx w =
      if timeout_rel == minus_one && next_rel == minus_one
      then process_single_event io os retries (lock_context ctx) w minus_one >>= zero_and_unlock
      else process_events_for retries abs_time (choose_timeout timeout_rel next_rel)
          (u32 (msec abs_time + next_rel)) ctx w

  -- dstc_process_events
  unfoldable pub process_events :
      ℕ → ℕ → Context Pub Sub → W → ℕ → Outcome (ℕ × Context Pub Sub × W)
  process_events retries fuel ctx w timeout_rel =
      let (abs_time, w') = os.clock_gettime w in
      if timeout_rel == 0
      then process_events_now retries fuel ctx w
      else get_timeout_msec_rel rmc sys ctx (msec abs_time) >>= λ r.
          process_events_until retries abs_time timeout_rel r.0 r.1 w'

  -- dstc_get_timeout_msec_rel
  unfoldable pub get_timeout_msec_rel_now :
      Context Pub Sub → W → Outcome ((ℕ × W) × Context Pub Sub)
  get_timeout_msec_rel_now ctx w =
      let (now, w) = os.clock_gettime w in
      get_timeout_msec_rel rmc sys ctx (msec now) >>= λ r. done ((r.0, w), r.1)
