-- ===== src/Examples/Threads.antt =====
-- examples/thread_stress: a client whose four threads send numbers by one context, and a server that
-- checks the numbers of each of them. A function of the API holds the context's lock from its start
-- to its end, so the threads take turns: in one turn a thread makes one call of the API, or one round
-- of `dstc_process_events(0)`, behind which the lock is free. What is measured and printed is left out.
pub mod Turns
pub mod Main
pub mod Client
pub mod Server
pub mod Delivery
pub mod Returns
pub mod Integrity
use dstc.Base.{
  ℕ, ◌+◌, ltb, Bool, true, false, ◌&&◌, not, List, [], ◌∷◌, ◌++◌, ◌==◌, if◌then◌else◌, Outcome,
  done, fault, exit, out_of_fuel, ◌>>=◌,
}
use dstc.Wire.{u32, le_bytes, le_value}
use dstc.Rmc.{Rmc, System}
use dstc.Context.{Context}
use dstc.Setup.{ebusy}
use dstc.Timeout.{minus_one}
use dstc.Symtab.Local.{remote_function_available}
use dstc.Queue.{buffer_client_calls, unbuffer_client_calls}
use dstc.Args.{Arg, fixed, client_function}
use dstc.Examples.Statics.{Statics}
use dstc.Epoll.{Os, Io}
use dstc.Events.{now_turn}
use dstc.Examples.Stress.{set_value_name, next_int, check_value, process_all}

-- One entry of an array, or one of the `static` variables, is written.
abbrev pub update {ℓ} : {A : Type ℓ} → (ℕ → A) → ℕ → A → ℕ → A
update f i a j = if i == j then a else f j

-- "set_value1" to "set_value4"
abbrev pub thread_name : ℕ → List ℕ
thread_name ind = set_value_name ++ (b'0' + ind) ∷ []

-- The client's threads, by `ind`: `val` of each, and whether it is inside `dstc_process_events(0)`.
pub record ClientThreads (Pub Sub W : Type 0) : Type 0 where
  pub ctx : Context Pub Sub
  pub world : W
  pub val : ℕ → ℕ
  pub busy : ℕ → Bool

-- `int val = 0;` in each of them
abbrev pub start_threads : {Pub Sub W : Type 0} → Context Pub Sub → W → ClientThreads Pub Sub W
start_threads ctx w = record { ctx = ctx; world = w; val = λ i. 0; busy = λ i. false }

module _ {Pub Sub W : Type 0} (rmc : Rmc Pub Sub) (sys : System) (io : Io (Context Pub Sub))
    (os : Os W) (retries : ℕ) where
  -- `dstc_set_value1(val)` to `dstc_set_value4(val)`
  unfoldable pub dstc_set_value_of : Context Pub Sub → ℕ → ℕ → Outcome (ℕ × Context Pub Sub)
  dstc_set_value_of ctx ind val =
      client_function rmc sys ctx (thread_name ind) (fixed 4 (le_bytes 4 val) ∷ []) []

  -- `switch(ind)`: its default case makes no call.
  unfoldable pub switch : Context Pub Sub → ℕ → ℕ → Outcome (ℕ × Context Pub Sub)
  switch ctx ind val =
      if ltb 0 ind && ltb ind 5 then dstc_set_value_of ctx ind val else done (0, ctx)

  -- At EBUSY the same number is sent again, after `dstc_process_events(0)`.
  unfoldable pub after_call :
      ClientThreads Pub Sub W → ℕ → ℕ × Context Pub Sub → ClientThreads Pub Sub W
  after_call s ind (res, ctx) =
      if res == ebusy
      then record s { ctx = ctx; busy = update s.busy ind true }
      else record s { ctx = ctx; val = update s.val ind (u32 (s.val ind + 1)) }

  unfoldable pub after_section :
      ClientThreads Pub Sub W → ℕ → Bool × Context Pub Sub × W → ClientThreads Pub Sub W
  after_section s ind (returned, ctx, w) = record s {
    ctx = ctx;
    world = w;
    busy = update s.busy ind (not returned);
  }

  -- One turn of the thread `ind` in `t_exec`; after the last number it does nothing.
  unfoldable pub t_exec : ClientThreads Pub Sub W → ℕ → Outcome (ClientThreads Pub Sub W)
  t_exec s ind =
      if s.busy ind
      then now_turn rmc sys io os retries s.ctx s.world >>= (λ r. done (after_section s ind r))
      else if ltb (s.val ind) 1000000
      then switch s.ctx ind (s.val ind) >>= (λ r. done (after_call s ind r))
      else done s

  -- The threads take turns in some order.
  unfoldable pub run_threads : ClientThreads Pub Sub W → List ℕ → Outcome (ClientThreads Pub Sub W)
  run_threads s [] = done s
  run_threads s (ind ∷ inds) = t_exec s ind >>= λ s. run_threads s inds

-- `last_value` and `exit_flag[thr]` of a thread of the server.
pub record Thread : Type 0 where
  pub last_value : ℕ
  pub exit_flag : Bool

-- `_set_value` at a number other than -1: the check of examples/stress.
unfoldable pub server_value : (ℕ → Thread) → ℕ → ℕ → Outcome (ℕ → Thread)
server_value threads ind value = check_value (threads ind).last_value value >>= λ last.
    done (update threads ind (record (threads ind) { last_value = last }))

-- Such calls as they come in, of whatever thread.
unfoldable pub server_values : (ℕ → Thread) → List (ℕ × ℕ) → Outcome (ℕ → Thread)
server_values threads [] = done threads
server_values threads ((ind, value) ∷ calls) =
    server_value threads ind value >>= λ threads. server_values threads calls

-- The server, with the variables of its four functions.
module _ {Pub Sub W : Type 0} (rmc : Rmc Pub Sub) (sys : System) (io : Io (Context Pub Sub))
    (os : Os W) (world : Statics (Context Pub Sub) W) (retries rounds : ℕ)
    (statics : Statics (Context Pub Sub) (ℕ → Thread)) where
  unfoldable pub set_last : ℕ → ℕ → Context Pub Sub → Context Pub Sub
  set_last ind last ctx =
      let threads = statics.read ctx in
      statics.write (update threads ind (record (threads ind) { last_value = last })) ctx

  unfoldable pub set_flag : ℕ → Context Pub Sub → Context Pub Sub
  set_flag ind ctx =
      let threads = statics.read ctx in
      statics.write (update threads ind (record (threads ind) { exit_flag = true })) ctx

  -- `_set_value`: at -1 it counts the last number, processes all events and then sets the flag.
  unfoldable pub thread_set_value : ℕ → ℕ → Context Pub Sub → Outcome (Context Pub Sub)
  thread_set_value ind value ctx =
      if value == minus_one
      then (do
        last ← next_int (statics.read ctx ind).last_value
        ctx ← process_all rmc sys io os world retries rounds (set_last ind last ctx)
        done (set_flag ind ctx))
      else server_value (statics.read ctx) ind value >>= (λ t. done (statics.write t ctx))

  -- `void set_value1(int value)` to `set_value4`, as DSTC_SERVER calls them.
  unfoldable pub set_value_of : ℕ → List Arg → Context Pub Sub → Outcome (Context Pub Sub)
  set_value_of ind (fixed size memory ∷ []) ctx = thread_set_value ind (le_value memory) ctx
  set_value_of ind args ctx = fault
