-- ===== src/Tests/LifeExamples.antt =====
-- The theorems on the life of a process, at concrete inputs.
use dstc.Base.{◌≡◌, refl, List, [], ◌∷◌, replicate, set, true, some, done}
use dstc.Context.{
  Context, default_context, no_server, no_callback, copy_name, lock_context, unlock_context,
  context_initialized,
}
use dstc.Setup.{
  lock_and_init_context, setup, setup_epoll, setup_internal, setup_contexts, env_args, announce,
  pub_config, sub_config,
}
use dstc.Symtab.Local.{register_server_function, add_server}
use dstc.Callbacks.{free_slot, fill_slot, activate_callback}
use dstc.Queue.{buffer_client_calls}
use dstc.Dispatch.{Invocation, process_packets, process_incoming}
use dstc.Lifecycle.{
  Request, Event, set_up, register_server, activate, buffer, flush, request, packets, serve,
  scripted, react, live,
}
use dstc.Tests.Network.{TestPub, TestSub, test_rmc, test_sys, no_packets, hi}

-- A process that serves "hi", waits for a callback and collects calls.
abbrev events : List Event
events =
    request (register_server hi 9)
    ∷ request set_up
    ∷ request (activate 5 6)
    ∷ request buffer
    ∷ packets 1
    ∷ []

abbrev pub flushing : Invocation → List Request
flushing inv = flush ∷ []

abbrev at_the_end : Context TestPub TestSub
at_the_end = record (default_context 64) {
  server_func = set (replicate 128 no_server) 0 (record { func_name = hi; server_func = 9 });
  server_func_ind = 1;
  epoll_fd = some 3;
  pub_ctx = some (record { node = 0; suspended = 0; packets = [] });
  sub_ctx = some no_packets;
  local_callback = set (replicate 128 no_callback) 0 (record { callback = 6; callback_ref = 5 });
  callback_ind = 1;
  pub_is_buffering = true;
}

live_run :
    live test_rmc test_sys (scripted test_rmc test_sys flushing) (default_context 64) events
    ≡ done at_the_end
unfolding live react serve register_server_function add_server copy_name setup setup_epoll
    setup_internal setup_contexts env_args announce pub_config sub_config activate_callback
    free_slot fill_slot buffer_client_calls lock_and_init_context context_initialized lock_context
    unlock_context process_incoming process_packets default_context
live_run = refl
