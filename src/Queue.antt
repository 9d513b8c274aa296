-- ===== src/Queue.antt =====
-- dstc.c, outbound calls: _dstc_queue, _queue_pending_calls, dstc_queue_func, dstc_queue_callback,
-- dstc_get_node_id, dstc_get_socket_count, and the three functions that steer the buffering. `malloc`
-- is taken to succeed.
pub mod Frame
pub mod Descriptor
pub mod Laws
pub mod Sound
use dstc.Base.{
  ℕ, zero, suc, ◌+◌, Bool, true, false, ◌&&◌, List, [], ◌∷◌, ◌++◌, Option, none, some, length, ltb,
  ◌==◌, if◌then◌else◌, Outcome, done, exit, ◌>>=◌,
}
use dstc.Wire.{u16, u32, le_bytes, header_size, ref_size}
use dstc.Rmc.{Rmc, System}
use dstc.Context.{
  Context, deref, memcpy, pending, context_initialized, lock_context, unlock_context,
  payload_buffer_in_use, payload_buffer_alloc, payload_buffer_empty,
}
use dstc.Setup.{lock_and_init_context, locked, setup, einval, ebusy}

-- `(!name || name[0] == 0)`
unfoldable pub is_nameless : Option (List ℕ) → Bool
is_nameless none = true
is_nameless (some []) = true
is_nameless (some (c ∷ name)) = false

-- `name ? strlen(name) : 0`
unfoldable pub name_length : Option (List ℕ) → ℕ
name_length none = 0
name_length (some name) = length name

-- `6 + id_len + arg_sz` as the `uint32_t` that the allocation takes.
unfoldable pub call_size : Option (List ℕ) → ℕ → List ℕ → ℕ
call_size name callback_ref arg = u32 (
    header_size
    + u16 (if callback_ref == 0 then name_length name + 1 else ref_size + 1)
    + length arg)

-- The writes through `call` into the buffer, in their order; `off` is where `call` points.
unfoldable pub write_call : List ℕ → ℕ → ℕ → Option (List ℕ) → ℕ → List ℕ → Outcome (List ℕ)
write_call buf off node_id (some name) callback_ref arg = do
  let payload = off + header_size
  let name_len = length name
  buf ← memcpy buf off (le_bytes 4 node_id)
  buf ← memcpy buf payload (name ++ 0 ∷ [])
  buf ← memcpy buf (off + 4) (le_bytes 2 (u16 (name_len + 1 + length arg)))
  memcpy buf (payload + (name_len + 1)) arg
write_call buf off node_id none callback_ref arg = do
  let payload = off + header_size
  buf ← memcpy buf off (le_bytes 4 node_id)
  buf ← memcpy buf payload (0 ∷ [])
  buf ← memcpy buf (payload + 1) (le_bytes 8 callback_ref)
  buf ← memcpy buf (off + 4) (le_bytes 2 (u16 (1 + ref_size + length arg)))
  memcpy buf (payload + (1 + ref_size)) arg

module _ {Pub Sub : Type 0} (rmc : Rmc Pub Sub) where
  unfoldable pub send_if_ready : Context Pub Sub → Pub → Outcome (Context Pub Sub)
  send_if_ready ctx pub_ctx =
      if rmc.pub_traffic_suspended pub_ctx == 0 && ltb 0 (payload_buffer_in_use ctx)
      then (let (res, sent) = rmc.pub_queue_packet (pending ctx) pub_ctx in
          if res == 0
          then done (payload_buffer_empty (record ctx { pub_ctx = some sent }))
          else exit 255)
      else done ctx

  -- Hand the buffered calls to rmc as one packet, unless it is suspended or there are none.
  unfoldable pub queue_pending_calls : Context Pub Sub → Outcome (Context Pub Sub)
  queue_pending_calls ctx = do pub_ctx ← deref ctx.pub_ctx; send_if_ready ctx pub_ctx

  module _ (sys : System) where
    unfoldable pub get_node_id : Context Pub Sub → Outcome (ℕ × Context Pub Sub)
    get_node_id ctx =
        locked rmc sys ctx
          λ ctx. do pub_ctx ← deref ctx.pub_ctx; done (rmc.pub_node_id pub_ctx, ctx)

    -- `_dstc_get_socket_count` under the lock.
    unfoldable pub get_socket_count : Context Pub Sub → Outcome (ℕ × Context Pub Sub)
    get_socket_count ctx = locked rmc sys ctx λ ctx. do
      sub_ctx ← deref ctx.sub_ctx
      pub_ctx ← deref ctx.pub_ctx
      done (u32 (rmc.sub_get_socket_count sub_ctx + rmc.pub_get_socket_count pub_ctx), ctx)

    -- `if (!_dstc_context_initialized(ctx)) dstc_setup();`, whose result is not looked at.
    unfoldable pub ensure_setup : Context Pub Sub → Outcome (Context Pub Sub)
    ensure_setup ctx =
        if context_initialized ctx then done ctx else setup rmc sys ctx >>= λ r. done r.1

    -- The call is stored in the bytes allocated at `off`, and sent unless calls are collected.
    unfoldable pub store_call :
        Context Pub Sub → ℕ → Option (List ℕ) → ℕ → List ℕ → Outcome (ℕ × Context Pub Sub)
    store_call ctx off name callback_ref arg = do
      (node_id, ctx) ← get_node_id ctx
      buf ← write_call ctx.pub_buffer off node_id name callback_ref arg
      let stored = record ctx { pub_buffer = buf }
      if stored.pub_is_buffering
          then done (0, stored)
          else queue_pending_calls stored >>= λ ctx. done (0, ctx)

    -- What follows the allocation: the bytes at `call`, or none of them.
    unfoldable pub store_or_full :
        Option ℕ × Context Pub Sub → Option (List ℕ) → ℕ → List ℕ → Outcome (ℕ × Context Pub Sub)
    store_or_full (none, ctx) name callback_ref arg =
        queue_pending_calls ctx >>= λ ctx. done (ebusy, ctx)
    store_or_full (some off, ctx) name callback_ref arg = store_call ctx off name callback_ref arg

    unfoldable pub alloc_and_store :
        Context Pub Sub → Option (List ℕ) → ℕ → List ℕ → Outcome (ℕ × Context Pub Sub)
    alloc_and_store ctx name callback_ref arg =
        store_or_full (payload_buffer_alloc ctx (call_size name callback_ref arg)) name callback_ref
          arg

    -- `_dstc_queue`; `arg` holds the `arg_sz` bytes.
    unfoldable pub queue :
        Context Pub Sub → Option (List ℕ) → ℕ → List ℕ → Outcome (ℕ × Context Pub Sub)
    queue ctx name callback_ref arg =
        if is_nameless name && callback_ref == 0
        then done (einval, ctx)
        else ensure_setup ctx >>= λ ctx. alloc_and_store ctx name callback_ref arg

    unfoldable pub queue_callback : Context Pub Sub → ℕ → List ℕ → Outcome (ℕ × Context Pub Sub)
    queue_callback ctx addr arg = locked rmc sys ctx λ ctx. queue ctx none addr arg

    unfoldable pub queue_func : Context Pub Sub → List ℕ → List ℕ → Outcome (ℕ × Context Pub Sub)
    queue_func ctx name arg = do
      (res, ctx) ← queue (lock_context ctx) (some name) 0 arg
      done (res, unlock_context ctx)

    unfoldable pub buffer_client_calls : Context Pub Sub → Outcome (Unit {0} × Context Pub Sub)
    buffer_client_calls ctx =
        locked rmc sys ctx λ ctx. done (tt, record ctx { pub_is_buffering = true })

    unfoldable pub flush_client_calls : Context Pub Sub → Outcome (Unit {0} × Context Pub Sub)
    flush_client_calls ctx =
        locked rmc sys ctx λ ctx. queue_pending_calls ctx >>= λ ctx. done (tt, ctx)

    unfoldable pub unbuffer_client_calls : Context Pub Sub → Outcome (Unit {0} × Context Pub Sub)
    unbuffer_client_calls ctx = locked rmc sys ctx λ ctx.
        queue_pending_calls (record ctx { pub_is_buffering = false }) >>= λ ctx. done (tt, ctx)
