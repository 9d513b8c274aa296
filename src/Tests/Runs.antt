-- ===== src/Tests/Runs.antt =====
-- Runs of the model.
use dstc.Base.{ℕ, ◌≡◌, refl, List, [], ◌∷◌, some, none, Outcome, done, ◌>>=◌, str_eq}
use dstc.Wire.{le_bytes, le_value, read_header, c_string}
use dstc.Context.{
  Context, default_context, memcpy, copy_name, lock_context, unlock_context, context_initialized,
  payload_buffer_alloc, payload_buffer_in_use, payload_buffer_empty,
}
use dstc.Setup.{
  lock_and_init_context, setup, setup_epoll, setup_internal, setup_contexts, env_args, announce,
  pub_config, sub_config,
}
use dstc.Symtab.Local.{register_server_function, add_server, find_server_function, find_server}
use dstc.Queue.{
  queue, queue_func, is_nameless, name_length, write_call, send_if_ready, queue_pending_calls,
  get_node_id, ensure_setup, store_call, store_or_full, alloc_and_store, call_size,
}
use dstc.Dispatch.{
  process_packet, process_calls, process_function_call, process_payload, process_named, invoke,
}
use dstc.Tests.Network.{TestPub, TestSub, test_rmc, test_sys, fresh, hi, counting}

packets_of : Outcome (ℕ × Context TestPub TestSub) → List (List ℕ)
packets_of (done (res, ctx)) = elim ctx.pub_ctx [ none ↦ [] | some p ↦ p.packets ]
packets_of _ = []

-- A call on a process that has not been set up yet sets it up, and goes out at once.
queue_func_run :
    packets_of (queue_func test_rmc test_sys (default_context 64) hi (1 ∷ 2 ∷ []))
    ≡ (0 ∷ 0 ∷ 0 ∷ 0 ∷ 5 ∷ 0 ∷ b'h' ∷ b'i' ∷ 0 ∷ 1 ∷ 2 ∷ []) ∷ []
unfolding packets_of queue_func queue is_nameless name_length write_call send_if_ready
    queue_pending_calls get_node_id ensure_setup store_call store_or_full alloc_and_store call_size
    setup setup_epoll setup_internal setup_contexts env_args announce pub_config sub_config
    lock_and_init_context lock_context unlock_context context_initialized payload_buffer_alloc
    payload_buffer_in_use payload_buffer_empty memcpy le_bytes default_context
queue_func_run = refl

count_of : Outcome (Context TestPub TestSub) → ℕ
count_of (done ctx) = ctx.client_callback_count
count_of _ = 0

-- The packet of that call, twice, on a node that has the function registered.
process_packet_run :
    count_of (
      register_server_function fresh hi 9 >>= λ ctx. process_packet counting ctx (
        7 ∷ 0 ∷ 0 ∷ 0 ∷ 5 ∷ 0 ∷ b'h' ∷ b'i' ∷ 0 ∷ 1 ∷ 2 ∷ 7 ∷ 0 ∷ 0 ∷ 0 ∷ 4 ∷ 0 ∷ b'h' ∷ b'i' ∷ 0
        ∷ 1 ∷ []))
    ≡ 3
unfolding count_of register_server_function add_server copy_name find_server_function find_server
    process_packet process_calls process_function_call process_payload process_named invoke
    read_header le_value c_string str_eq lock_context unlock_context default_context
process_packet_run = refl
