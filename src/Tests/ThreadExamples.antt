-- ===== src/Tests/ThreadExamples.antt =====
-- The theorem on examples/thread_stress at concrete inputs: threads 1 and 2, and a server that keeps its
-- static variables where another has the subscriber.
use dstc.Base.{
  ℕ, zero, suc, ◌+◌, ◌≡◌, refl, ap, arith, true, false, List, [], ◌∷◌, ◌++◌, Option, none, some,
  Outcome, done, map, length, replicate, str_eq,
}
use mathlib.Core.List.{flatten}
use dstc.Wire.{le_bytes}
use dstc.Timeout.{minus_one}
use dstc.Context.{
  Context, ServerFunc, default_context, pending, no_server, memcpy, lock_context, unlock_context,
  context_initialized, payload_buffer_alloc, payload_buffer_in_use, payload_buffer_empty,
}
use dstc.Setup.{lock_and_init_context}
use dstc.Queue.{
  queue, queue_func, is_nameless, name_length, write_call, send_if_ready, queue_pending_calls,
  get_node_id, ensure_setup, store_call, store_or_full, alloc_and_store, call_size,
}
use dstc.Symtab.Local.{find_server_function, find_server}
use dstc.Dispatch.{Invocation}
use dstc.Dispatch.Incoming.{frames}
use dstc.Args.{
  server_function, client_function, fill_buffer, serialize, serialize_argument, read_bytes,
  size_arguments, size_argument,
}
use dstc.Epoll.{
  Wait, process_epoll_result, process_epollin, process_epollout, process_events_array,
  wait_for_events, wait_again, process_ready, process_single_event, close_on_error,
}
use dstc.Epoll.UserData.{user_data_index, is_pub}
use dstc.Events.{
  now_turn, end_turn, timeout_and_unlock, process_timeout_locked, sub_timeout, again_or_done,
}
use dstc.Outbox.Delivery.{receive, empty_outbox}
use dstc.Examples.Statics.{Statics}
use dstc.Examples.Threads.{
  ClientThreads, Thread, update, start_threads, run_threads, set_value_of, thread_name, t_exec,
  switch, after_call, after_section, dstc_set_value_of,
}
use dstc.Examples.Threads.Turns.{values_of}
use dstc.Examples.Threads.Client.{thread_call}
use dstc.Examples.Threads.Server.{last_of}
use dstc.Examples.Threads.Delivery.{value_params, IsServer}
use dstc.Examples.Threads.Integrity.{run_threads-integrity}
use dstc.Tests.Network.{TestPub, TestSub, test_rmc, test_sys}
use dstc.Tests.World.{test_os, quiet_os, quiet_io, no_world}
use dstc.Tests.Traffic.{
  starved, node_busy, starved-empty, resuming_io, resuming_io-IoKeeps, one_event,
}
use dstc.Tests.ElementExamples.{server_rmc}
use dstc.Tests.OutboxExamples.{sent, test_laws}

abbrev Server : Type 0
Server = Context TestPub (ℕ → Thread)

abbrev idle_thread : Thread
idle_thread = record { last_value = minus_one; exit_flag = false }

abbrev kept : Option (ℕ → Thread) → ℕ → Thread
kept none i = idle_thread
kept (some t) i = t i

abbrev statics : Statics Server (ℕ → Thread)
statics = record {
  read = λ c. kept c.sub_ctx;
  write = λ t c. record c { sub_ctx = some t };
  read-write = λ t c. refl;
}

abbrev serves : Invocation → Server → Outcome Server
serves inv c =
    server_function value_params
      (set_value_of server_rmc test_sys quiet_io quiet_os no_world 1 1 statics inv.func) inv.payload
      c

abbrev entry : ℕ → ServerFunc
entry i = record { func_name = thread_name i; server_func = i }

abbrev four_functions : Server
four_functions = record (default_context 64) {
  server_func = entry 1 ∷ entry 2 ∷ entry 3 ∷ entry 4 ∷ replicate 124 no_server;
  server_func_ind = 4;
}

four_functions-IsServer :
    IsServer server_rmc test_sys quiet_io quiet_os no_world 1 1 serves statics
      (λ i. i)
      four_functions
unfolding find_server_function find_server str_eq default_context
four_functions-IsServer zero thread = absurd (omega arith)
four_functions-IsServer (suc zero) thread = refl
four_functions-IsServer (suc (suc zero)) thread = refl
four_functions-IsServer (suc (suc (suc zero))) thread = refl
four_functions-IsServer (suc (suc (suc (suc zero)))) thread = refl
four_functions-IsServer (suc (suc (suc (suc (suc i))))) thread = absurd (omega arith)

find-write :
    (t : ℕ → Thread) (c : Server) (name : List ℕ)
    → find_server_function (statics.write t c) name ≡ find_server_function c name
unfolding find_server_function
find-write t c name = refl

-- The packet of a call of a thread.
abbrev packet : ℕ → ℕ → List ℕ
packet ind val =
    7
    ∷ 0
    ∷ 0
    ∷ 0
    ∷ 15
    ∷ 0
    ∷ b's'
    ∷ b'e'
    ∷ b't'
    ∷ b'_'
    ∷ b'v'
    ∷ b'a'
    ∷ b'l'
    ∷ b'u'
    ∷ b'e'
    ∷ (b'0' + ind)
    ∷ 0
    ∷ val
    ∷ 0
    ∷ 0
    ∷ 0
    ∷ []

-- Three calls fill the buffer while rmc is suspended. Thread 2 is then refused twice, each time
-- processes events, in one turn or two, and is taken at the third attempt.
abbrev turns : List ℕ
turns = 1 ∷ 2 ∷ 1 ∷ 2 ∷ 2 ∷ 2 ∷ 2 ∷ 2 ∷ 2 ∷ []

abbrev four_numbers : ClientThreads TestPub TestSub (List Wait)
four_numbers = record {
  ctx = record starved {
    pub_ctx = some (record {
      node = 7;
      suspended = 0;
      packets = (packet 1 0 ++ packet 2 0 ++ packet 1 1) ∷ [];
    });
    pub_buffer = packet 2 1 ++ packet 2 0 ++ packet 1 1 ++ 0 ∷ [];
    pub_buffer_ind = 21;
  };
  world = [];
  val = update (update (update (update (λ i. 0) 1 1) 2 1) 1 2) 2 2;
  busy =
      update (update (update (update (update (λ i. false) 2 true) 2 true) 2 false) 2 true) 2 false;
}

send_four :
    run_threads test_rmc test_sys resuming_io test_os 4 (start_threads starved one_event) turns
    ≡ done four_numbers
unfolding run_threads t_exec switch after_call after_section dstc_set_value_of client_function
    fill_buffer serialize serialize_argument read_bytes size_arguments size_argument queue_func
    queue is_nameless name_length write_call send_if_ready queue_pending_calls get_node_id
    ensure_setup store_call store_or_full alloc_and_store call_size lock_and_init_context
    lock_context unlock_context context_initialized payload_buffer_alloc payload_buffer_in_use
    payload_buffer_empty memcpy le_bytes default_context now_turn end_turn timeout_and_unlock
    process_timeout_locked sub_timeout again_or_done process_single_event wait_for_events wait_again
    process_ready process_events_array process_epoll_result process_epollin process_epollout
    close_on_error user_data_index is_pub
send_four = refl

run_threads-integrity_example :
    (waiting : List (ℕ × ℕ)) × (p : TestPub) × (receiver' : Server) × (four_numbers.ctx.pub_ctx
      ≡ some p)
    × (pending four_numbers.ctx ≡ frames 7 (map thread_call waiting))
    × (receive serves four_functions (sent p) ≡ done receiver')
    × ((i : ℕ)
        → (k : ℕ) × (k + length (values_of i waiting) ≡ four_numbers.val i)
          × ((statics.read receiver' i).last_value ≡ last_of k))
unfolding flatten default_context
run_threads-integrity_example =
    run_threads-integrity test_rmc test_sys resuming_io test_os 4 sent 7 (omega arith) test_laws
      resuming_io-IoKeeps server_rmc test_sys quiet_io quiet_os no_world 1 1 serves statics (λ i. i)
      four_functions starved one_event turns {s = four_numbers} (omega arith)
      (node_busy, empty_outbox, starved-empty, refl) (omega arith) (λ i thread e. omega arith)
      (λ i inv c thread e.
        ap
          (λ (j : ℕ).
            server_function value_params
              (set_value_of server_rmc test_sys quiet_io quiet_os no_world 1 1 statics j)
              inv.payload c)
          e)
      find-write four_functions-IsServer (λ i. refl) send_four
