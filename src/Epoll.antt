-- ===== src/Epoll.antt =====
-- epoll.c, the file descriptors that rmc watches and what happens on them: the poll_* functions,
-- _dstc_process_epoll_result and _dstc_process_single_event. The system calls, and those calls of
-- rmc that may call back into DSTC, are parameters.
pub mod UserData
pub mod Laws
pub mod Lock
pub mod Sound
use dstc.Base.{
  ℕ, zero, suc, ◌+◌, ◌-◌, ◌*◌, ◌/◌, ◌%◌, ◌^◌, Bool, true, false, ◌&&◌, ◌||◌, not, List, [], ◌∷◌,
  Option, none, some, length, get_or, ◌==◌, if◌then◌else◌, Outcome, done, exit, fault, out_of_fuel,
  ◌>>=◌,
}
use dstc.Context.{Context, lock_context, unlock_context}
use dstc.Setup.{etime}
use dstc.Epoll.UserData.{event_user_data, user_data_index, is_pub}

-- ENODATA
abbrev pub enodata : ℕ
enodata = 61

-- An `epoll_event`: EPOLLIN and EPOLLOUT of `events`, and `data.u32`.
pub record Event : Type 0 where
  pub epollin : Bool
  pub epollout : Bool
  pub data_u32 : ℕ

abbrev pub no_event : Event
no_event = record { epollin = false; epollout = false; data_u32 = 0 }

-- An `rmc_poll_action_t`: a set of RMC_POLLREAD and RMC_POLLWRITE.
pub record Action : Type 0 where
  pub poll_read : Bool
  pub poll_write : Bool

-- What `epoll_wait` returns: -1 with EINTR, -1 with another errno, or this many events, of which
-- there are none after a timeout.
pub data Wait : Type 0 where
  interrupted : Wait
  failed : Wait
  ready : List Event → Wait

-- The system calls on a world `W`. A descriptor is `none` at -1, a timeout is the pattern of an `int`.
-- The Boolean results say whether the call succeeded, and whether the lock was taken.
pub record Os (W : Type 0) : Type 0 where
  pub epoll_ctl_add : Option ℕ → ℕ → Event → W → Bool × W
  pub epoll_ctl_mod : Option ℕ → ℕ → Event → W → Bool × W
  pub epoll_ctl_del : Option ℕ → ℕ → W → Bool × W
  pub epoll_wait : Option ℕ → ℕ → W → Wait × W
  -- CLOCK_MONOTONIC: seconds and nanoseconds
  pub clock_gettime : W → (ℕ × ℕ) × W
  pub mutex_trylock : W → Bool × W
  pub mutex_timedlock : ℕ × ℕ → W → Bool × W

-- The calls of rmc from inside of which the callbacks of dstc.c run: what each does to the context `C`.
-- A number is what the call returns.
pub record Io (C : Type 0) : Type 0 where
  pub pub_read : ℕ → C → Outcome C
  pub sub_read : ℕ → C → Outcome C
  pub pub_write : ℕ → C → Outcome (ℕ × C)
  pub sub_write : ℕ → C → Outcome (ℕ × C)
  pub pub_close_connection : ℕ → C → Outcome C
  pub sub_close_connection : ℕ → C → Outcome C
  pub pub_timeout_process : C → Outcome (ℕ × C)
  pub sub_timeout_process : C → Outcome (ℕ × C)

abbrev pub same_action : Action → Action → Bool
same_action a b = same a.poll_read b.poll_read && same a.poll_write b.poll_write
  where
    same : Bool → Bool → Bool
    same true y = y
    same false y = not y

module _ {Pub Sub W : Type 0} (os : Os W) where
  -- `poll_add`; the fatal branch ends the process.
  unfoldable pub poll_add : Context Pub Sub → W → ℕ → ℕ → Action → Outcome (Context Pub Sub × W)
  poll_add ctx w descriptor event_user_data action =
      let held = lock_context ctx in
      let (ok, w) =
        os.epoll_ctl_add held.epoll_fd descriptor
          (record {
            epollin = action.poll_read;
            epollout = action.poll_write;
            data_u32 = event_user_data;
          })
          w in
      if ok then done (unlock_context held, w) else exit 255

  unfoldable pub poll_add_sub : Context Pub Sub → W → ℕ → ℕ → Action → Outcome (Context Pub Sub × W)
  poll_add_sub ctx w descriptor index action =
      poll_add ctx w descriptor (event_user_data index false) action

  unfoldable pub poll_add_pub : Context Pub Sub → W → ℕ → ℕ → Action → Outcome (Context Pub Sub × W)
  poll_add_pub ctx w descriptor index action =
      poll_add ctx w descriptor (event_user_data index true) action

  unfoldable pub poll_modify :
      Context Pub Sub → W → ℕ → ℕ → Action → Action → Outcome (Context Pub Sub × W)
  poll_modify ctx w descriptor event_user_data old_action new_action =
      let held = lock_context ctx in
      let (ok, w') =
        os.epoll_ctl_mod held.epoll_fd descriptor
          (record {
            epollin = new_action.poll_read;
            epollout = new_action.poll_write;
            data_u32 = event_user_data;
          })
          w in
      if same_action old_action new_action
      then done (ctx, w)
      else if ok
      then done (unlock_context held, w')
      else exit 255

  unfoldable pub poll_modify_pub :
      Context Pub Sub → W → ℕ → ℕ → Action → Action → Outcome (Context Pub Sub × W)
  poll_modify_pub ctx w descriptor index old_action new_action =
      poll_modify ctx w descriptor (event_user_data index true) old_action new_action

  unfoldable pub poll_modify_sub :
      Context Pub Sub → W → ℕ → ℕ → Action → Action → Outcome (Context Pub Sub × W)
  poll_modify_sub ctx w descriptor index old_action new_action =
      poll_modify ctx w descriptor (event_user_data index false) old_action new_action

  -- A descriptor that cannot be removed is only logged.
  unfoldable pub poll_remove : Context Pub Sub → W → ℕ → Context Pub Sub × W
  poll_remove ctx w descriptor =
      let held = lock_context ctx in
      let (ok, w) = os.epoll_ctl_del held.epoll_fd descriptor w in (unlock_context held, w)

module _ {C : Type 0} (io : Io C) where
  -- `if (event->events & EPOLLIN)`
  unfoldable pub process_epollin : C → Event → Outcome C
  process_epollin ctx event =
      let c_ind = user_data_index event.data_u32 in
      if not event.epollin
      then done ctx
      else if is_pub event.data_u32
      then io.pub_read c_ind ctx
      else io.sub_read c_ind ctx

  -- `op_res` is a `uint8_t`; anything but 0 and ENODATA closes the connection.
  unfoldable pub close_on_error : (ℕ → C → Outcome C) → ℕ → ℕ × C → Outcome C
  close_on_error close c_ind (res, ctx) =
      let op_res = res % 2 ^ 8 in
      if op_res == 0 || op_res == enodata then done ctx else close c_ind ctx

  unfoldable pub process_epollout : C → Event → Outcome C
  process_epollout ctx event =
      let c_ind = user_data_index event.data_u32 in
      if not event.epollout
      then done ctx
      else if is_pub event.data_u32
      then io.pub_write c_ind ctx >>= close_on_error io.pub_close_connection c_ind
      else io.sub_write c_ind ctx >>= close_on_error io.sub_close_connection c_ind

  unfoldable pub process_epoll_result : C → Event → Outcome C
  process_epoll_result ctx event = do ctx ← process_epollin ctx event; process_epollout ctx event

  -- `while(nfds--)`
  unfoldable pub process_events_array : List Event → ℕ → C → Outcome C
  process_events_array events zero ctx = done ctx
  process_events_array events (suc nfds) ctx = do
    ctx ← process_epoll_result ctx (get_or events nfds no_event)
    process_events_array events nfds ctx

module _ {Pub Sub W : Type 0} (io : Io (Context Pub Sub)) (os : Os W) where
  -- An interrupt repeats the wait.
  unfoldable pub wait_again : (W → Outcome (Wait × W)) → Wait × W → Outcome (Wait × W)
  wait_again again (interrupted, w) = again w
  wait_again again (failed, w) = done (failed, w)
  wait_again again (ready events, w) = done (ready events, w)

  -- The loop around `epoll_wait`, with a bound on how often it waits.
  unfoldable pub wait_for_events : ℕ → Option ℕ → ℕ → W → Outcome (Wait × W)
  wait_for_events zero fd timeout_msec w = out_of_fuel
  wait_for_events (suc fuel) fd timeout_msec w =
      wait_again (wait_for_events fuel fd timeout_msec) (os.epoll_wait fd timeout_msec w)

  -- The result is 0, or ETIME if there was no event.
  unfoldable pub process_ready : Context Pub Sub → Wait × W → Outcome (ℕ × Context Pub Sub × W)
  process_ready ctx (interrupted, w) = exit 255
  process_ready ctx (failed, w) = exit 255
  process_ready ctx (ready [], w) = done (etime, ctx, w)
  process_ready ctx (ready (e ∷ events), w) = do
    ctx ← process_events_array io (e ∷ events) (length (e ∷ events)) ctx
    done (0, ctx, w)

  -- The lock is let go while `epoll_wait` waits.
  unfoldable pub process_single_event :
      ℕ → Context Pub Sub → W → ℕ → Outcome (ℕ × Context Pub Sub × W)
  process_single_event fuel ctx w timeout_msec = do
    result ← wait_for_events fuel ctx.epoll_fd timeout_msec w
    process_ready (lock_context (unlock_context ctx)) result
