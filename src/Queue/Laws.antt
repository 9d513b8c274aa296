-- ===== src/Queue/Laws.antt =====
-- `_dstc_queue` and `_queue_pending_calls` of dstc.c, in terms of frames and of the bytes that
-- wait.
use dstc.Base.{
  ℕ, ◌+◌, ◌^◌, ◌≤◌, ◌<◌, ◌≡◌, ◌≢◌, refl, ap, ◌∙◌, Bool, true, false, ◌&&◌, ◌⊎◌, List, [], ◌∷◌, ◌++◌,
  some, arith, length, take, drop, length-append, length-take, length-drop, drop-drop, take-append,
  take-append-drop, append_assoc, ◌==◌, if◌then◌else◌, done, exit, ◌>>=◌,
}
use dstc.Rmc.{Rmc, System}
use dstc.Context.{Context, pending, payload_buffer_in_use, payload_buffer_empty}
use dstc.Context.Buffer.{payload_buffer_alloc-fits, payload_buffer_alloc-full}
use dstc.Context.Valid.{IsValid}
use dstc.Setup.Laws.{
  unlock-lock, pub_ctx-lock_context, context_initialized_lem, lock_and_init_context_lem,
}
use dstc.Setup.{ebusy}
use dstc.Queue.{
  is_nameless, name_length, send_if_ready, queue_pending_calls, get_node_id, ensure_setup,
  store_call, call_size, store_or_full, alloc_and_store, queue,
}
use dstc.Queue.Frame.{
  Call, func, reply, frame, call_name, call_ref, call_arg, length-frame, length-payload_bytes-func,
  length-payload_bytes-reply, write_call-frame,
}

-- A call that names something: a function with a name, or a callback other than the null one.
abbrev pub IsCall : Call → Type 0
IsCall (func name arg) = name ≢ []
IsCall (reply ref arg) = ref ≢ 0

IsCall-not_nameless :
    (call : Call) → IsCall call → (is_nameless (call_name call) && call_ref call == 0) ≡ false
unfolding is_nameless call_name call_ref
IsCall-not_nameless (func [] arg) h = absurd (h refl)
IsCall-not_nameless (func (c ∷ name) arg) h = refl
IsCall-not_nameless (reply ref arg) h = ground arith

call_size_lem :
    (node_id : ℕ) (call : Call)
    → IsCall call
    → length (frame node_id call) < 2 ^ 16
    → call_size (call_name call) (call_ref call) (call_arg call) ≡ length (frame node_id call)
unfolding call_size name_length call_name call_ref call_arg
call_size_lem node_id (func name arg) named h =
    ground (arith, length-frame node_id (func name arg), length-payload_bytes-func name arg)
call_size_lem node_id (reply ref arg) named h =
    ground (arith, length-frame node_id (reply ref arg), length-payload_bytes-reply ref arg)

-- The buffer around the bytes that an allocation of `size` takes.
buffer_split :
    (buf : List ℕ) (ind size : ℕ)
    → take ind buf ++ (take size (drop ind buf) ++ drop (ind + size) buf) ≡ buf
buffer_split buf ind size =
    rw (← drop-drop ind size buf, take-append-drop size (drop ind buf), take-append-drop ind buf)

module _ {Pub Sub : Type 0} where
  -- The context with one more call in its buffer.
  abbrev pub stored : Context Pub Sub → ℕ → Call → Context Pub Sub
  stored ctx node_id call =
      let size = length (frame node_id call) in
      record ctx {
        pub_buffer =
            pending ctx ++ (frame node_id call ++ drop (ctx.pub_buffer_ind + size) ctx.pub_buffer);
        pub_buffer_ind = ctx.pub_buffer_ind + size;
      }

  -- The pending calls of that context are those of the old one, and the new call.
  pub pending-stored :
      (ctx : Context Pub Sub) (node_id : ℕ) (call : Call)
      → ctx.pub_buffer_ind ≤ length ctx.pub_buffer
      → pending (stored ctx node_id call) ≡ pending ctx ++ frame node_id call
  pending-stored ctx node_id call h =
      let part = frame node_id call in
      let rest = drop (ctx.pub_buffer_ind + length part) ctx.pub_buffer in
      let size : length (pending ctx) ≡ ctx.pub_buffer_ind =
        omega (arith, length-take ctx.pub_buffer_ind ctx.pub_buffer) in
      rw (← append_assoc (pending ctx) part rest) (
        take-append (pending ctx ++ part) rest (ctx.pub_buffer_ind + length part)
          (omega (arith, length-append (pending ctx) part)))

  -- The bytes of one more call fit the invariant where there is room for them.
  pub stored-IsValid :
      (rmc : Rmc Pub Sub) (ctx : Context Pub Sub) (node_id : ℕ) (call : Call)
      → IsValid rmc.max_payload ctx
      → ctx.pub_buffer_ind + length (frame node_id call) ≤ rmc.max_payload
      → IsValid rmc.max_payload (stored ctx node_id call)
  stored-IsValid rmc ctx node_id call v room =
      let part = frame node_id call in
      let size = length part in
      let rest = drop (ctx.pub_buffer_ind + size) ctx.pub_buffer in
      omega (
        arith,
        length-append (pending ctx) (part ++ rest),
        length-append part rest,
        length-take ctx.pub_buffer_ind ctx.pub_buffer,
        length-drop (ctx.pub_buffer_ind + size) ctx.pub_buffer,
      )

  get_node_id_lem :
      (rmc : Rmc Pub Sub) (sys : System) (ctx : Context Pub Sub) (pub_ctx : Pub)
      → ctx.pub_ctx ≡ some pub_ctx
      → get_node_id rmc sys ctx ≡ done (rmc.pub_node_id pub_ctx, ctx)
  unfolding get_node_id
  get_node_id_lem rmc sys ctx pub_ctx up =
      simp (lock_and_init_context_lem rmc sys ctx up, pub_ctx-lock_context, up, unlock-lock)

  module _ (rmc : Rmc Pub Sub) (sys : System) (ctx : Context Pub Sub) (pub_ctx : Pub)
      (v : IsValid rmc.max_payload ctx) (up : ctx.pub_ctx ≡ some pub_ctx)
      (small : rmc.max_payload < 2 ^ 16) (call : Call) (named : IsCall call) where
    store_call_lem :
        ctx.pub_buffer_ind + length (frame (rmc.pub_node_id pub_ctx) call) ≤ rmc.max_payload
        → store_call rmc sys
            (record ctx {
              pub_buffer_ind = ctx.pub_buffer_ind + length (frame (rmc.pub_node_id pub_ctx) call);
            })
            ctx.pub_buffer_ind
            (call_name call)
            (call_ref call)
            (call_arg call)
          ≡ (let next = stored ctx (rmc.pub_node_id pub_ctx) call in
              if ctx.pub_is_buffering
              then done (0, next)
              else queue_pending_calls rmc next >>= λ c. done (0, c))
    unfolding store_call
    store_call_lem room =
        let node_id = rmc.pub_node_id pub_ctx in
        let size = length (frame node_id call) in
        let ind = ctx.pub_buffer_ind in
        let next : Context Pub Sub = record ctx { pub_buffer_ind = ind + size } in
        let start : length (pending ctx) ≡ ind = omega (arith, length-take ind ctx.pub_buffer) in
        let gap : length (take size (drop ind ctx.pub_buffer)) ≡ size =
          omega
            (arith, length-take size (drop ind ctx.pub_buffer), length-drop ind ctx.pub_buffer) in
        let written =
          write_call-frame (pending ctx) (drop (ind + size) ctx.pub_buffer)
            (take size (drop ind ctx.pub_buffer)) node_id call gap in
        rw (
          get_node_id_lem rmc sys next pub_ctx up,
          rw (buffer_split ctx.pub_buffer ind size, start) at written,
        )

    queue-alloc_and_store :
        queue rmc sys ctx (call_name call) (call_ref call) (call_arg call)
        ≡ alloc_and_store rmc sys ctx (call_name call) (call_ref call) (call_arg call)
    unfolding queue ensure_setup
    queue-alloc_and_store = rw (IsCall-not_nameless call named, context_initialized_lem ctx up)

    -- On a valid context that is set up, with RMC_MAX_PAYLOAD below 2^16, for a call that has a
    -- name or a reference: while there is room, _dstc_queue stores the frame of the call behind the
    -- pending ones, and sends all of them unless calls are being collected.
    pub queue-stored :
        ctx.pub_buffer_ind + length (frame (rmc.pub_node_id pub_ctx) call) ≤ rmc.max_payload
        → queue rmc sys ctx (call_name call) (call_ref call) (call_arg call) ≡ (
            let next = stored ctx (rmc.pub_node_id pub_ctx) call in
            if ctx.pub_is_buffering
            then done (0, next)
            else queue_pending_calls rmc next >>= λ c. done (0, c))
    unfolding alloc_and_store store_or_full
    queue-stored room =
        let size = call_size_lem (rmc.pub_node_id pub_ctx) call named (omega arith) in
        let fits =
          payload_buffer_alloc-fits ctx (length (frame (rmc.pub_node_id pub_ctx) call))
            (omega arith) (omega arith) in
        rw (queue-alloc_and_store, size, fits) (store_call_lem room)

    -- While calls are being collected the call is stored, and that is all.
    pub queue-collected :
        ctx.pub_is_buffering ≡ true
        → ctx.pub_buffer_ind + length (frame (rmc.pub_node_id pub_ctx) call) ≤ rmc.max_payload
        → queue rmc sys ctx (call_name call) (call_ref call) (call_arg call)
          ≡ done (0, stored ctx (rmc.pub_node_id pub_ctx) call)
    queue-collected on room =
        let next = stored ctx (rmc.pub_node_id pub_ctx) call in
        queue-stored room
        ∙ ap
            (λ (b : Bool).
              if b then done (0, next) else queue_pending_calls rmc next >>= λ c. done (0, c))
            on

    -- On a valid context that is set up, with RMC_MAX_PAYLOAD below 2^16, for a call that has a
    -- name or a reference and a frame below 2^16 bytes that does not fit behind the pending ones:
    -- the call is not stored, the pending calls are given to _queue_pending_calls and, if that
    -- returns, the result is EBUSY.
    pub queue-full :
        rmc.max_payload < ctx.pub_buffer_ind + length (frame (rmc.pub_node_id pub_ctx) call)
        → length (frame (rmc.pub_node_id pub_ctx) call) < 2 ^ 16
        → queue rmc sys ctx (call_name call) (call_ref call) (call_arg call)
          ≡ (queue_pending_calls rmc ctx >>= λ c. done (ebusy, c))
    unfolding alloc_and_store store_or_full
    queue-full full short =
        let size = call_size_lem (rmc.pub_node_id pub_ctx) call named short in
        let tight =
          payload_buffer_alloc-full ctx (length (frame (rmc.pub_node_id pub_ctx) call))
            (omega arith) (omega arith) (omega arith) in
        rw (queue-alloc_and_store, size, tight)

module _ {Pub Sub : Type 0} (rmc : Rmc Pub Sub) (ctx : Context Pub Sub) (pub_ctx : Pub)
    (up : ctx.pub_ctx ≡ some pub_ctx) where
  -- On a context that is set up _queue_pending_calls changes nothing while rmc is suspended, or if
  -- nothing is pending.
  pub queue_pending_calls-held :
      (rmc.pub_traffic_suspended pub_ctx ≢ 0) ⊎ (ctx.pub_buffer_ind ≡ 0)
      → queue_pending_calls rmc ctx ≡ done ctx
  unfolding queue_pending_calls send_if_ready payload_buffer_in_use
  queue_pending_calls-held h = rw up (ground arith)

  -- On a context that is set up, where rmc is not suspended and calls are pending: all of the
  -- pending bytes go to rmc as one packet and the buffer is empty; if rmc refuses the packet the
  -- process ends.
  pub queue_pending_calls-sent :
      {res : ℕ} {sent : Pub}
      → rmc.pub_traffic_suspended pub_ctx ≡ 0
      → 0 < ctx.pub_buffer_ind
      → rmc.pub_queue_packet (pending ctx) pub_ctx ≡ (res, sent)
      → queue_pending_calls rmc ctx ≡ (
          if res == 0
          then done (record ctx { pub_ctx = some sent; pub_buffer_ind = 0 })
          else exit 255)
  unfolding queue_pending_calls send_if_ready payload_buffer_in_use payload_buffer_empty
  queue_pending_calls-sent free some_calls e = rw up (ground arith)
