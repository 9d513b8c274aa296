-- ===== src/Examples/Threads/Main.antt =====
-- The main function of the client of examples/thread_stress, which waits for its threads and then sends -1
-- to each function. The list of turns bounds how long the threads are waited for.
use dstc.Base.{
  ℕ, zero, suc, ◌+◌, ltb, Bool, true, false, ◌&&◌, not, List, [], ◌∷◌, if◌then◌else◌, Outcome, done,
  exit, out_of_fuel, ◌>>=◌,
}
use dstc.Epoll.{Os, Io}
use dstc.Events.{process_events}
use dstc.Rmc.{Rmc, System}
use dstc.Context.{Context}
use dstc.Timeout.{minus_one}
use dstc.Symtab.Local.{remote_function_available}
use dstc.Queue.{buffer_client_calls, unbuffer_client_calls}
use dstc.Examples.Stress.{retry_value, availability_round, process_until}
use dstc.Examples.Threads.{ClientThreads, start_threads, dstc_set_value_of, run_threads}

-- The four of them, in the order of the source.
abbrev pub all_threads : List ℕ
all_threads = 1 ∷ 2 ∷ 3 ∷ 4 ∷ []

abbrev pub each : (ℕ → Bool) → List ℕ → Bool
each test [] = true
each test (i ∷ is) = if test i then each test is else false

module _ {Pub Sub W : Type 0} (rmc : Rmc Pub Sub) (sys : System) (io : Io (Context Pub Sub))
    (os : Os W) (retries rounds : ℕ) where
  abbrev waiting : Context Pub Sub → W → ℕ → Outcome (ℕ × Context Pub Sub × W)
  waiting = process_events rmc sys io os retries rounds

  -- `dstc_remote_function_available(dstc_set_value1) && ...`: none is asked for behind one that is not
  -- there. `funcs` are the addresses.
  unfoldable pub all_available : Context Pub Sub → List ℕ → Outcome (Bool × Context Pub Sub)
  all_available ctx [] = done (true, ctx)
  all_available ctx (func ∷ funcs) = do
    (there, ctx) ← remote_function_available rmc sys ctx func
    if there then all_available ctx funcs else done (false, ctx)

  unfoldable pub wait_for_functions :
      ℕ → List ℕ → Context Pub Sub → W → Outcome (Context Pub Sub × W)
  wait_for_functions zero funcs ctx w = out_of_fuel
  wait_for_functions (suc fuel) funcs ctx w =
      all_available ctx funcs
      >>= availability_round rmc sys waiting (wait_for_functions fuel funcs) w

  -- The loop of `t_exec` of the thread has ended.
  unfoldable pub has_ended : ClientThreads Pub Sub W → ℕ → Bool
  has_ended s ind = not (s.busy ind) && not (ltb (s.val ind) 1000000)

  -- `pthread_join` of each thread
  unfoldable pub join_threads : ClientThreads Pub Sub W → Outcome (Context Pub Sub × W)
  join_threads s = if each (has_ended s) all_threads then done (s.ctx, s.world) else out_of_fuel

  -- `while (dstc_set_value1(-1) == EBUSY) dstc_process_events(1);`
  unfoldable pub send_last : ℕ → Context Pub Sub → W → ℕ → Outcome (Context Pub Sub × W)
  send_last zero ctx w ind = out_of_fuel
  send_last (suc fuel) ctx w ind =
      dstc_set_value_of rmc sys io os retries ctx ind minus_one
      >>= retry_value rmc sys waiting (λ ctx w. send_last fuel ctx w ind) 1 w

  unfoldable pub send_all_last : ℕ → List ℕ → Context Pub Sub → W → Outcome (Context Pub Sub × W)
  send_all_last fuel [] ctx w = done (ctx, w)
  send_all_last fuel (ind ∷ inds) ctx w = do
    (ctx, w) ← send_last fuel ctx w ind
    send_all_last fuel inds ctx w

  -- What `main` does behind the threads.
  unfoldable pub end_client : ℕ → Context Pub Sub → W → Outcome (Context Pub Sub × W)
  end_client fuel ctx w = do
    (_, ctx) ← unbuffer_client_calls rmc sys ctx
    (ctx, w) ← send_all_last fuel all_threads ctx w
    (_, ctx) ← unbuffer_client_calls rmc sys ctx
    done (ctx, w)

  -- The threads and what follows, up to the second `dstc_unbuffer_client_calls()`.
  unfoldable pub run_client : ℕ → List ℕ → Context Pub Sub → W → Outcome (Context Pub Sub × W)
  run_client fuel turns ctx w = do
    s ← run_threads rmc sys io os retries (start_threads ctx w) turns
    (ctx, w) ← join_threads s
    end_client fuel ctx w

  unfoldable pub threads_client :
      (W → ℕ × W) → ℕ → List ℕ → List ℕ → Context Pub Sub → W → Outcome (Context Pub Sub × W)
  threads_client now fuel funcs turns ctx w = do
    (ctx, w) ← wait_for_functions fuel funcs ctx w
    (_, ctx) ← buffer_client_calls rmc sys ctx
    (ctx, w) ← run_client fuel turns ctx w
    let (ts, w) = now w
    (ctx, w) ← process_until rmc sys waiting now fuel (ts + 2000) ts ctx w
    exit 0
