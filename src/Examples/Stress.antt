-- ===== src/Examples/Stress.antt =====
-- examples/stress: a client that sends the numbers in order, again at EBUSY, and a server that checks
-- that none is lost, doubled or swapped. An `int` is its bit
-- pattern, and -1 the last message. What is measured and printed is left out.
pub mod Order
pub mod Client
use dstc.Base.{
  ℕ, zero, suc, ◌+◌, ◌-◌, ltb, ◌^◌, Bool, true, false, ◌&&◌, not, List, [], ◌∷◌, ◌==◌,
  if◌then◌else◌, Outcome, done, exit, fault, out_of_fuel, ◌>>=◌,
}
use dstc.Wire.{u32, le_bytes}
use dstc.Rmc.{Rmc, System}
use dstc.Context.{Context}
use dstc.Setup.{ebusy}
use dstc.Timeout.{minus_one}
use dstc.Symtab.Local.{remote_function_available}
use dstc.Queue.{buffer_client_calls, unbuffer_client_calls}
use dstc.Args.{Arg, fixed, client_function}
use dstc.Epoll.{Os, Io}
use dstc.Events.{process_events}
use dstc.Examples.Statics.{Statics}

-- "set_value"
abbrev pub set_value_name : List ℕ
set_value_name = b's' ∷ b'e' ∷ b't' ∷ b'_' ∷ b'v' ∷ b'a' ∷ b'l' ∷ b'u' ∷ b'e' ∷ []

abbrev pub int_max : ℕ
int_max = 2147483647

-- `last_value + 1`, an addition of `int`s, whose overflow is undefined.
unfoldable pub next_int : ℕ → Outcome ℕ
next_int last_value = if last_value == int_max then fault else done (u32 (last_value + 1))

-- `if (last_value != -1 && value != last_value + 1) exit(255); last_value = value;`
unfoldable pub check_value : ℕ → ℕ → Outcome ℕ
check_value last_value value =
    let compared = next_int last_value >>= λ next. if value == next then done value else exit 255 in
    if last_value == minus_one then done value else compared

-- A server, whose functions call `dstc_process_events`: `world` is the part of its state that is outside
-- of the process, and the two numbers bound the interrupts and the rounds.
module _ {Pub Sub W : Type 0} (rmc : Rmc Pub Sub) (sys : System) (io : Io (Context Pub Sub))
    (os : Os W) (world : Statics (Context Pub Sub) W) (retries rounds : ℕ) where
  -- `dstc_process_events(0);`, its result is not looked at.
  unfoldable pub process_all : Context Pub Sub → Outcome (Context Pub Sub)
  process_all ctx = process_events rmc sys io os retries rounds ctx (world.read ctx) 0 >>= λ r.
      done (world.write r.2 r.1)

  -- `set_value` of stress_server.c, with `last_value`. -1 ends the process, after
  -- `dstc_process_events(0)`, and so does a value that does not follow the last one.
  unfoldable pub set_value :
      Statics (Context Pub Sub) ℕ → ℕ → Context Pub Sub → Outcome (Context Pub Sub)
  set_value statics value ctx =
      if value == minus_one
      then process_all ctx >>= (λ ctx. exit 0)
      else check_value (statics.read ctx) value >>= (λ last. done (statics.write last ctx))

  -- The calls that a server gets one after the other.
  unfoldable pub set_values :
      Statics (Context Pub Sub) ℕ → List ℕ → Context Pub Sub → Outcome (Context Pub Sub)
  set_values statics [] ctx = done ctx
  set_values statics (v ∷ vs) ctx = set_value statics v ctx >>= λ ctx. set_values statics vs ctx

module _ {Pub Sub W : Type 0} (rmc : Rmc Pub Sub) (sys : System)
    (process_events : Context Pub Sub → W → ℕ → Outcome (ℕ × Context Pub Sub × W)) where
  -- `dstc_set_value(val)`, the function that DSTC_CLIENT(set_value, int,) makes.
  unfoldable pub dstc_set_value : Context Pub Sub → ℕ → Outcome (ℕ × Context Pub Sub)
  dstc_set_value ctx val =
      client_function rmc sys ctx set_value_name (fixed 4 (le_bytes 4 val) ∷ []) []

  -- `while (dstc_set_value(val) == EBUSY) dstc_process_events(timeout);`, with a bound on how often.
  unfoldable pub retry_value :
      (Context Pub Sub → W → Outcome (Context Pub Sub × W))
      → ℕ
      → W
      → ℕ × Context Pub Sub
      → Outcome (Context Pub Sub × W)
  retry_value again timeout w (res, ctx) =
      if res == ebusy then process_events ctx w timeout >>= (λ r. again r.1 r.2) else done (ctx, w)

  unfoldable pub send_value : ℕ → ℕ → Context Pub Sub → W → ℕ → Outcome (Context Pub Sub × W)
  send_value zero timeout ctx w val = out_of_fuel
  send_value (suc fuel) timeout ctx w val =
      dstc_set_value ctx val >>= retry_value (λ ctx w. send_value fuel timeout ctx w val) timeout w

  -- `while(val < 10000000)`, with the rounds that are left.
  unfoldable pub send_values : ℕ → ℕ → Context Pub Sub → W → ℕ → Outcome (Context Pub Sub × W)
  send_values fuel zero ctx w val = done (ctx, w)
  send_values fuel (suc rounds) ctx w val = do
    (ctx, w) ← send_value fuel 1 ctx w val
    send_values fuel rounds ctx w (u32 (val + 1))

  -- `while(!dstc_remote_function_available(dstc_set_value)) dstc_process_events(-1);`
  unfoldable pub availability_round :
      (Context Pub Sub → W → Outcome (Context Pub Sub × W))
      → W
      → Bool × Context Pub Sub
      → Outcome (Context Pub Sub × W)
  availability_round again w (true, ctx) = done (ctx, w)
  availability_round again w (false, ctx) = process_events ctx w minus_one >>= (λ r. again r.1 r.2)

  unfoldable pub wait_for_function : ℕ → ℕ → Context Pub Sub → W → Outcome (Context Pub Sub × W)
  wait_for_function zero func ctx w = out_of_fuel
  wait_for_function (suc fuel) func ctx w =
      remote_function_available rmc sys ctx func
      >>= availability_round (wait_for_function fuel func) w

  -- `while(ts < timeout)`, on `dstc_msec_monotonic_timestamp`
  unfoldable pub process_until :
      (W → ℕ × W) → ℕ → ℕ → ℕ → Context Pub Sub → W → Outcome (Context Pub Sub × W)
  process_until now zero timeout ts ctx w = out_of_fuel
  process_until now (suc fuel) timeout ts ctx w =
      if ltb ts timeout
      then process_events ctx w (u32 (timeout - ts))
        >>= (λ r. let (ts, w) = now r.2 in process_until now fuel timeout ts r.1 w)
      else done (ctx, w)

  -- `main` of stress_client.c; `func` is the address of `dstc_set_value`. It ends by `exit(0)`.
  unfoldable pub stress_client :
      (W → ℕ × W) → ℕ → ℕ → Context Pub Sub → W → Outcome (Context Pub Sub × W)
  stress_client now fuel func ctx w = do
    (ctx, w) ← wait_for_function fuel func ctx w
    (_, ctx) ← buffer_client_calls rmc sys ctx
    (ctx, w) ← send_values fuel 10000000 ctx w 0
    (_, ctx) ← unbuffer_client_calls rmc sys ctx
    (ctx, w) ← send_value fuel 0 ctx w minus_one
    let (ts, w) = now w
    (ctx, w) ← process_until now fuel (ts + 2000) ts ctx w
    exit 0
