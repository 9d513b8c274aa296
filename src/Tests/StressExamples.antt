-- ===== src/Tests/StressExamples.antt =====
-- The theorems on the stress examples, at concrete inputs.
use dstc.Base.{
  ℕ, ◌+◌, ◌≡◌, ◌≢◌, ◌⊎◌, refl, arith, List, [], ◌∷◌, ◌++◌, exit, some, map, done, replicate,
}
use mathlib.Core.List.{flatten}
use dstc.Wire.{le_bytes}
use dstc.Context.{
  Context, default_context, memcpy, lock_context, unlock_context, context_initialized,
  payload_buffer_alloc, payload_buffer_in_use, payload_buffer_empty,
}
use dstc.Setup.{lock_and_init_context}
use dstc.Timeout.{minus_one, get_timeout_msec_rel, get_next_timeout_abs, shortest, time_left}
use dstc.Args.{
  client_function, fill_buffer, serialize, serialize_argument, read_bytes, size_arguments,
  size_argument,
}
use dstc.Queue.{
  queue, queue_func, is_nameless, name_length, write_call, send_if_ready, queue_pending_calls,
  get_node_id, ensure_setup, store_call, store_or_full, alloc_and_store, call_size,
}
use dstc.Epoll.{
  process_epoll_result, process_epollin, process_epollout, process_events_array, wait_for_events,
  wait_again, process_ready, process_single_event, close_on_error,
}
use dstc.Epoll.UserData.{user_data_index, is_pub}
use dstc.Events.{
  process_events, process_events_until, process_events_for, process_events_locked, choose_timeout,
  add_msec, lock_and_init_context_timeout, lock_context_timeout, init_locked, remaining,
  finish_event, timeout_and_unlock, process_timeout_locked, sub_timeout, again_or_done,
}
use dstc.Outbox.{HasTaken}
use dstc.Outbox.Delivery.{empty_outbox}
use dstc.Examples.Statics.{Statics}
use dstc.Examples.Stress.{dstc_set_value, retry_value, send_value, send_values, set_values}
use dstc.Examples.Stress.Order.{in_a_row, set_values-in_a_row}
use dstc.Examples.Stress.Client.{value_call, waiting, send_values-taken}
use dstc.Tests.Network.{TestPub, TestSub, test_rmc, test_sys, fresh}
use dstc.Tests.World.{test_os, quiet_os, quiet_io, no_world}
use dstc.Tests.Traffic.{
  starved, node_busy, starved-empty, resuming_io, resuming_io-IoKeeps, one_event,
}
use dstc.Tests.OutboxExamples.{sent, test_laws}

-- A server whose `last_value` is kept where another has the counter of its callbacks.
abbrev last_in_counter : Statics (Context TestPub TestSub) ℕ
last_in_counter = record {
  read = λ c. c.client_callback_count;
  write = λ v c. record c { client_callback_count = v };
  read-write = λ v c. refl;
}

abbrev started : Context TestPub TestSub
started = record fresh { client_callback_count = minus_one }

-- 4, 5 and 7: 6 is lost.
set_values-in_a_row_example :
    ((5 ∷ 7 ∷ [] ≡ in_a_row (4 + 1) 2)
      × (ctx' : Context TestPub TestSub) × (set_values test_rmc test_sys quiet_io quiet_os no_world
            1 1 last_in_counter
            (4 ∷ 5 ∷ 7 ∷ [])
            started
          ≡ done ctx')
      × (last_in_counter.read ctx' ≡ 4 + 2))
    ⊎ ((5 ∷ 7 ∷ [] ≢ in_a_row (4 + 1) 2)
        × (set_values test_rmc test_sys quiet_io quiet_os no_world 1 1 last_in_counter
              (4 ∷ 5 ∷ 7 ∷ [])
              started
            ≡ exit 255))
set_values-in_a_row_example =
    set_values-in_a_row test_rmc test_sys quiet_io quiet_os no_world 1 1 last_in_counter 4
      (5 ∷ 7 ∷ []) started refl (omega arith, (omega arith, (omega arith, tt)))

-- The packet of `set_value(val)`.
abbrev packet : ℕ → List ℕ
packet val =
    7 ∷ 0 ∷ 0 ∷ 0 ∷ 14 ∷ 0 ∷ b's' ∷ b'e' ∷ b't' ∷ b'_' ∷ b'v' ∷ b'a' ∷ b'l' ∷ b'u' ∷ b'e' ∷ 0 ∷ val
    ∷ 0 ∷ 0 ∷ 0 ∷ []

-- Three calls fill the buffer while rmc is suspended. The fourth is refused twice, and taken after two
-- calls of dstc_process_events.
abbrev five_sent : Context TestPub TestSub
five_sent = record starved {
  pub_ctx =
      some (record { node = 7; suspended = 0; packets = (packet 0 ++ packet 1 ++ packet 2) ∷ [] });
  pub_buffer = packet 3 ++ packet 4 ++ packet 2 ++ replicate 4 0;
  pub_buffer_ind = 40;
}

send_five :
    send_values test_rmc test_sys
      (waiting test_rmc test_sys resuming_io test_os 4 4)
      3
      5
      starved
      one_event
      0
    ≡ done (five_sent, [])
unfolding send_values send_value retry_value dstc_set_value client_function fill_buffer serialize
    serialize_argument read_bytes size_arguments size_argument queue_func queue is_nameless
    name_length write_call send_if_ready queue_pending_calls get_node_id ensure_setup store_call
    store_or_full alloc_and_store call_size lock_and_init_context lock_context unlock_context
    context_initialized payload_buffer_alloc payload_buffer_in_use payload_buffer_empty memcpy
    le_bytes default_context process_events process_events_until process_events_for
    process_events_locked choose_timeout add_msec lock_and_init_context_timeout lock_context_timeout
    init_locked remaining finish_event timeout_and_unlock process_timeout_locked sub_timeout
    again_or_done process_single_event wait_for_events wait_again process_ready process_events_array
    process_epoll_result process_epollin process_epollout close_on_error user_data_index is_pub
    get_timeout_msec_rel get_next_timeout_abs shortest time_left
send_five = refl

send_values-taken_example :
    HasTaken test_rmc test_sys sent (omega arith) 7 ([] ++ map value_call (in_a_row 0 5)) five_sent
unfolding flatten
send_values-taken_example =
    send_values-taken test_rmc test_sys resuming_io test_os 4 4 sent 7 (omega arith) test_laws
      resuming_io-IoKeeps 3 5 starved one_event [] (omega arith)
      (node_busy, empty_outbox, starved-empty, refl) send_five
