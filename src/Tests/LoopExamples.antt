-- ===== src/Tests/LoopExamples.antt =====
-- A process with its event loop, at a concrete run.
use dstc.Base.{◌^◌, ◌≡◌, refl, List, [], ◌∷◌, replicate, set, true, false, some, arith, done}
use dstc.Context.{
  Context, default_context, no_server, no_callback, copy_name, lock_context, unlock_context,
  context_initialized,
}
use dstc.Context.Valid.{IsValid}
use dstc.Setup.{
  lock_and_init_context, setup, setup_epoll, setup_internal, setup_contexts, env_args, announce,
  pub_config, sub_config,
}
use dstc.Symtab.Local.{register_server_function, add_server}
use dstc.Callbacks.{free_slot, fill_slot, activate_callback}
use dstc.Queue.{buffer_client_calls}
use dstc.Dispatch.{process_packets, process_incoming}
use dstc.Epoll.{
  Io, Wait, ready, process_single_event, wait_for_events, wait_again, process_ready,
  process_events_array, process_epoll_result, process_epollin, process_epollout, close_on_error,
}
use dstc.Epoll.UserData.{user_data_index, is_pub}
use dstc.Events.{
  again_or_done, sub_timeout, process_timeout_locked, timeout_and_unlock, now_round,
  process_events_now, process_events, process_timeout,
}
use dstc.Lifecycle.{
  register_server, activate, buffer, request, packets, serve, scripted, react, live,
}
use dstc.Lifecycle.Sound.{scripted-Keeps}
use dstc.Lifecycle.Loop.{
  Step, happens, wait, timers, Script, scripted_io, scripted_io-KeepsSound, take_step, run,
  run-Sound,
}
use dstc.Tests.Network.{TestPub, TestSub, test_rmc, test_sys, no_packets, hi}
use dstc.Tests.World.{test_os}
use dstc.Tests.LifeExamples.{flushing}

-- What is read from the publisher activates a callback; the subscriber looks for packets and fails to
-- write.
abbrev publishing : Script
publishing = record {
  on_read = λ i. request (activate 5 6) ∷ [];
  on_write = λ i. [];
  on_close = λ i. [];
  on_timeout = request buffer ∷ [];
  result = 0;
}

abbrev subscribing : Script
subscribing = record {
  on_read = λ i. packets 1 ∷ [];
  on_write = λ i. [];
  on_close = λ i. [];
  on_timeout = [];
  result = 5;
}

-- One round of events: both connections are readable, and the subscriber's writable.
abbrev rounds : List Wait
rounds =
    ready (
      record { data_u32 = 2 ^ 15; epollin = true; epollout = false }
      ∷ record { data_u32 = 0; epollin = true; epollout = true }
      ∷ [])
    ∷ ready []
    ∷ []

abbrev steps : List Step
steps = happens (request (register_server hi 9)) ∷ timers ∷ wait 4 2 0 ∷ []

abbrev at_the_end : Context TestPub TestSub
at_the_end = record (default_context 64) {
  server_func = set (replicate 128 no_server) 0 (record { func_name = hi; server_func = 9 });
  server_func_ind = 1;
  epoll_fd = some 3;
  pub_ctx = some (record { node = 0; suspended = 0; packets = [] });
  sub_ctx = some no_packets;
  local_callback = set (replicate 128 no_callback) 0 (record { callback = 6; callback_ref = 5 });
  callback_ind = 1;
  pub_is_buffering = true;
}

abbrev scripts : Io (Context TestPub TestSub)
scripts = scripted_io test_rmc test_sys (scripted test_rmc test_sys flushing) publishing subscribing

whole_run :
    run test_rmc test_sys
      (scripted test_rmc test_sys flushing)
      scripts
      test_os
      (default_context 64)
      rounds
      steps
    ≡ done (at_the_end, [])
unfolding run take_step scripted_io live react serve process_timeout process_timeout_locked
    sub_timeout again_or_done timeout_and_unlock process_events process_events_now now_round
    process_single_event wait_for_events wait_again process_ready process_events_array
    process_epoll_result process_epollin process_epollout close_on_error user_data_index is_pub
    register_server_function add_server copy_name setup setup_epoll setup_internal setup_contexts
    env_args announce pub_config sub_config activate_callback free_slot fill_slot
    buffer_client_calls lock_and_init_context context_initialized lock_context unlock_context
    process_incoming process_packets default_context
whole_run = refl

run-Sound_example : IsValid 64 at_the_end × (at_the_end.lock ≡ 0)
run-Sound_example =
    run-Sound test_rmc test_sys (scripted test_rmc test_sys flushing) (omega arith)
      (scripted-Keeps test_rmc test_sys (omega arith) flushing) scripts test_os
      (scripted_io-KeepsSound test_rmc test_sys (scripted test_rmc test_sys flushing) (omega arith)
        (scripted-Keeps test_rmc test_sys (omega arith) flushing) publishing subscribing)
      rounds steps whole_run
