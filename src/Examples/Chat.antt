-- ===== src/Examples/Chat.antt =====
-- examples/chat/chat.c in the build with epoll: a program with an event loop of its own, which sends
-- each line that is typed to all nodes, and shows what it gets from them.
pub mod Line
use dstc.Base.{
  ℕ, zero, suc, ◌-◌, ◌==◌, true, false, List, [], ◌∷◌, Option, none, some, length, take, replicate,
  set, get_or, if◌then◌else◌, Outcome, done, exit, fault, out_of_fuel, ◌>>=◌,
}
use dstc.Wire.{c_string}
use dstc.Rmc.{Rmc, System}
use dstc.Context.{Context, deref}
use dstc.Setup.{setup_epoll}
use dstc.Queue.{get_socket_count}
use dstc.Epoll.{Event, no_event, Wait, interrupted, failed, ready, Os, Io}
use dstc.Epoll.UserData.{is_dstc_event}
use dstc.Events.{get_timeout_msec_rel_now, process_timeout, process_own_epoll_result}
use dstc.Args.{Arg, Param, fixed, fixed_param, client_function}

-- "chat_message"
abbrev pub chat_message_name : List ℕ
chat_message_name =
    b'c' ∷ b'h' ∷ b'a' ∷ b't' ∷ b'_' ∷ b'm' ∷ b'e' ∷ b's' ∷ b's' ∷ b'a' ∷ b'g' ∷ b'e' ∷ []

-- The arguments of `chat_message`, two arrays of characters.
abbrev pub chat_parameters : List Param
chat_parameters = fixed_param 128 ∷ fixed_param 512 ∷ []

abbrev pub chat_args : List ℕ → List ℕ → List Arg
chat_args username buf = fixed 128 username ∷ fixed 512 buf ∷ []

-- What else chat.c takes from outside: `fgets(s, size, stdin)` on the array `s`, and `epoll_create1`.
pub record Console (W : Type 0) : Type 0 where
  pub fgets : ℕ → List ℕ → W → Option (List ℕ) × W
  pub epoll_create1 : W → Option ℕ × W

-- `buf[strlen(buf)-1] = 0`, which is in front of the array if the string is empty.
unfoldable pub trim : List ℕ → Outcome (List ℕ)
trim buf = do
  line ← deref (c_string buf)
  if length line == 0 then fault else done (set buf (length line - 1) 0)

-- The function `chat_message`: the name and the text that `printf` shows.
unfoldable pub chat_message : List Arg → Outcome (List ℕ × List ℕ)
chat_message (fixed n username ∷ fixed k buf ∷ []) = do
  name ← deref (c_string (take n username))
  text ← deref (c_string (take k buf))
  done (name, text)
chat_message _ = fault

module _ {Pub Sub W : Type 0} (rmc : Rmc Pub Sub) (sys : System) (io : Io (Context Pub Sub))
    (os : Os W) (console : Console W) where
  -- What is done with the result of `fgets`.
  unfoldable pub take_line : Option (List ℕ) × W → Outcome (List ℕ × W)
  take_line (none, w) = exit 255
  take_line (some buf, w) = trim buf >>= λ buf. done (buf, w)

  -- `stale` is the array before.
  unfoldable pub read_line : ℕ → List ℕ → W → Outcome (List ℕ × W)
  read_line size stale w = take_line (console.fgets size stale w)

  -- `handle_keyboard`; what the client function returns is not looked at.
  unfoldable pub handle_keyboard :
      List ℕ → List ℕ → Context Pub Sub → W → Outcome (Context Pub Sub × W)
  handle_keyboard username stale ctx w = do
    (buf, w) ← read_line 511 stale w
    (res, ctx) ← client_function rmc sys ctx chat_message_name (chat_args username buf) []
    done (ctx, w)

  -- One event: the keyboard has the user data 0.
  unfoldable pub handle_event :
      List ℕ → List ℕ → Context Pub Sub → W → Event → Outcome (Context Pub Sub × W)
  handle_event username stale ctx w event =
      if event.data_u32 == 0
      then handle_keyboard username stale ctx w
      else if is_dstc_event event.data_u32
      then process_own_epoll_result rmc sys io os ctx event >>= (λ r. done (r.1, w))
      else exit 255

  -- `while(nfds--)`
  unfoldable pub handle_events :
      List ℕ → List ℕ → List Event → ℕ → Context Pub Sub → W → Outcome (Context Pub Sub × W)
  handle_events username stale events zero ctx w = done (ctx, w)
  handle_events username stale events (suc nfds) ctx w = do
    (ctx, w) ← handle_event username stale ctx w (get_or events nfds no_event)
    handle_events username stale events nfds ctx w

  -- `while (!(timeout = dstc_get_timeout_msec_rel())) dstc_process_timeout();`, with a bound.
  unfoldable pub timer_round :
      (Context Pub Sub → W → Outcome (ℕ × Context Pub Sub × W))
      → (ℕ × W) × Context Pub Sub
      → Outcome (ℕ × Context Pub Sub × W)
  timer_round again ((timeout, w), ctx) =
      if timeout == 0
      then process_timeout rmc sys io os ctx >>= (λ r. again r.1 w)
      else done (timeout, ctx, w)

  unfoldable pub run_timers : ℕ → Context Pub Sub → W → Outcome (ℕ × Context Pub Sub × W)
  run_timers zero ctx w = out_of_fuel
  run_timers (suc fuel) ctx w =
      get_timeout_msec_rel_now rmc sys io os ctx w >>= timer_round (run_timers fuel)

  -- After `epoll_wait`. At -1, whatever errno is, `while(nfds--)` goes on with `events[-2]`.
  unfoldable pub after_wait :
      List ℕ → List ℕ → Context Pub Sub → Wait × W → Outcome (Context Pub Sub × W)
  after_wait username stale ctx (interrupted, w) = fault
  after_wait username stale ctx (failed, w) = fault
  after_wait username stale ctx (ready [], w) =
      process_timeout rmc sys io os ctx >>= (λ r. done (r.1, w))
  after_wait username stale ctx (ready (e ∷ events), w) =
      handle_events username stale (e ∷ events) (length (e ∷ events)) ctx w

  -- One round of `while(1)`. The number of sockets is the size of the array of events.
  unfoldable pub chat_round :
      ℕ → List ℕ → List ℕ → Option ℕ → Context Pub Sub → W → Outcome (Context Pub Sub × W)
  chat_round fuel username stale epoll_fd ctx w = do
    (n, ctx) ← get_socket_count rmc sys ctx
    (timeout, ctx, w) ← run_timers fuel ctx w
    after_wait username stale ctx (os.epoll_wait epoll_fd timeout w)

  unfoldable pub chat_rounds :
      ℕ → ℕ → List ℕ → List ℕ → Option ℕ → Context Pub Sub → W → Outcome (Context Pub Sub × W)
  chat_rounds fuel zero username stale epoll_fd ctx w = done (ctx, w)
  chat_rounds fuel (suc n) username stale epoll_fd ctx w = do
    (ctx, w) ← chat_round fuel username stale epoll_fd ctx w
    chat_rounds fuel n username stale epoll_fd ctx w

  unfoldable pub watch_keyboard :
      ℕ → ℕ → List ℕ → List ℕ → Context Pub Sub → Option ℕ × W → Outcome (Context Pub Sub × W)
  watch_keyboard fuel n username stale ctx (epoll_fd, w) =
      let (ok, w) =
        os.epoll_ctl_add epoll_fd 0 (record { epollin = true; epollout = false; data_u32 = 0 }) w in
      if ok
      then setup_epoll rmc sys ctx epoll_fd
        >>= (λ r. chat_rounds fuel n username stale epoll_fd r.1 w)
      else exit 255

  -- `main`, for so many rounds.
  unfoldable pub chat_main : ℕ → ℕ → List ℕ → Context Pub Sub → W → Outcome (Context Pub Sub × W)
  chat_main fuel n stale ctx w = do
    (username, w) ← read_line 127 (replicate 128 0) w
    watch_keyboard fuel n username stale ctx (console.epoll_create1 w)
