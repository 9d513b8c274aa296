-- ===== src/Tests/EventExamples.antt =====
-- Each theorem on timeouts and on the event loop, at a concrete input that meets its hypotheses.
use dstc.Base.{
  ℕ, ◌+◌, ◌-◌, ◌/◌, ◌^◌, ◌≤◌, ◌<◌, ◌≡◌, ◌≢◌, refl, true, false, List, [], ◌∷◌, some, inl, length,
  arith, done, exit, fault, out_of_fuel,
}
use dstc.Context.{Context, default_context, context_initialized, lock_context, unlock_context}
use dstc.Setup.{etime, lock_and_init_context}
use dstc.Timeout.{get_timeout_msec_rel, get_next_timeout_abs, shortest, time_left}
use dstc.Timeout.Laws.{get_timeout_msec_rel-bound}
use dstc.Epoll.{
  Event, Wait, interrupted, ready, process_epoll_result, process_epollin, process_epollout,
  process_events_array, wait_for_events, wait_again, process_ready, process_single_event,
  close_on_error,
}
use dstc.Epoll.UserData.{
  event_user_data, user_data_index, is_pub, is_dstc_event, user_data_index-event_user_data,
}
use dstc.Epoll.Laws.{wait_for_events-ne-out_of_fuel}
use dstc.Epoll.Lock.{KeepsLock}
use dstc.Events.{
  process_events, process_events_until, process_events_for, choose_timeout, timeout_and_unlock,
  process_timeout_locked, sub_timeout, again_or_done,
}
use dstc.Events.Laws.{lock-process_events}
use dstc.Events.Failures.{process_events-no_setup, process_events-overflow}
use dstc.Tests.Network.{TestPub, TestSub, test_rmc, idle_rmc, test_sys, node_7, no_packets, fresh}
use dstc.Tests.World.{next_wait, later_waits, test_os, test_io}

get_timeout_msec_rel-bound_example :
    (t : ℕ) × (get_timeout_msec_rel test_rmc test_sys fresh 3 ≡ done (t, fresh))
    × (t ≤ 7000 / 1000 - 3 + 1)
    × (t < 2 ^ 31)
get_timeout_msec_rel-bound_example =
    get_timeout_msec_rel-bound test_rmc test_sys fresh node_7 no_packets refl refl 3 7000 (inl refl)
      (omega arith)

user_data_index-event_user_data_example :
    (user_data_index (event_user_data 5 true) ≡ 5)
    × (is_pub (event_user_data 5 true) ≡ true)
    × (is_dstc_event (event_user_data 5 true) ≡ true)
    × (event_user_data 5 true < 2 ^ 32)
user_data_index-event_user_data_example = user_data_index-event_user_data 5 true (omega arith)

abbrev two_events : List Event
two_events =
    record { epollin = true; epollout = false; data_u32 = 3 }
    ∷ record { epollin = true; epollout = true; data_u32 = 4 }
    ∷ []

-- Two interrupts in front of the events.
abbrev noisy : List Wait
noisy = interrupted ∷ interrupted ∷ ready two_events ∷ []

fewer_waits :
    (w : List Wait) → next_wait (some 3) 9 w ≡ interrupted → length (later_waits w) < length w
fewer_waits [] e = cc
fewer_waits (r ∷ w) e = omega arith

wait_for_events-ne-out_of_fuel_example :
    wait_for_events test_io test_os 4 (some 3) 9 noisy ≢ out_of_fuel
wait_for_events-ne-out_of_fuel_example =
    wait_for_events-ne-out_of_fuel test_io test_os (some 3) 9 length fewer_waits 4 noisy
      (omega arith)

test_io-KeepsLock : KeepsLock test_io
test_io-KeepsLock = record {
  pub_read = λ i c c' e. ground (arith, e);
  sub_read = λ i c c' e. ground (arith, e);
  pub_write = λ i c c' r e. ground (arith, e);
  sub_write = λ i c c' r e. ground (arith, e);
  pub_close_connection = λ i c c' e. ground (arith, e);
  sub_close_connection = λ i c c' e. ground (arith, e);
  pub_timeout_process = λ c c' r e. ground (arith, e);
  sub_timeout_process = λ c c' r e. ground (arith, e);
}

-- What the two events leave behind: all that was read, and one closed connection.
abbrev after_events : Context TestPub TestSub
after_events = record fresh { client_callback_count = 27; client_func_ind = 1 }

process_events_run :
    process_events test_rmc test_sys test_io test_os 4 1 fresh noisy 5
    ≡ done (etime, after_events, [])
unfolding process_events process_events_until process_events_for choose_timeout timeout_and_unlock
    process_timeout_locked sub_timeout again_or_done process_single_event wait_for_events wait_again
    process_ready process_events_array process_epoll_result process_epollin process_epollout
    close_on_error user_data_index is_pub get_timeout_msec_rel get_next_timeout_abs shortest
    time_left lock_and_init_context context_initialized lock_context unlock_context default_context
process_events_run = refl

lock-process_events_example : after_events.lock ≡ 0
unfolding default_context
lock-process_events_example =
    lock-process_events test_rmc test_sys test_io test_os test_io-KeepsLock 4 1 fresh node_7
      no_packets noisy 5 {r = etime} {ctx' = after_events} {w' = []} refl refl refl
      process_events_run

abbrev unset : Context TestPub TestSub
unset = default_context 64

process_events-no_setup_example :
    process_events test_rmc test_sys test_io test_os 4 2 unset noisy 0 ≡ exit 255
unfolding default_context
process_events-no_setup_example =
    process_events-no_setup test_rmc test_sys test_io test_os 3 1 unset noisy refl λ w. refl

process_events-overflow_example :
    process_events idle_rmc test_sys test_io test_os 4 1 fresh noisy 5000 ≡ fault
process_events-overflow_example =
    process_events-overflow idle_rmc test_sys test_io test_os 4 1 fresh node_7 no_packets noisy 5000
      refl refl refl refl (omega arith) (omega arith)
