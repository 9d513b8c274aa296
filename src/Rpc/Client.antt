-- ===== src/Rpc/Client.antt =====
-- The sender of a remote call: the function that DSTC_CLIENT of dstc.h makes, on top of dstc_queue_func
-- of dstc.c.
use dstc.Base.{
  ℕ, ◌+◌, ◌*◌, ◌^◌, ◌≤◌, ◌<◌, ◌≡◌, ◌≢◌, refl, ap, ◌∙◌, arith, true, List, [], ◌++◌, some, length,
  take, length-append, length-take, if_false, false, Outcome, done, ◌>>=◌,
}
use dstc.Rmc.{Rmc, System}
use dstc.Context.{Context, pending, lock_context, unlock_context}
use dstc.Context.Valid.{IsValid}
use dstc.Context.Sound.{lock_context-Sound}
use dstc.Queue.{queue, queue_func, queue_pending_calls}
use dstc.Queue.Frame.{
  Call, func, frame, length-frame, length-payload_bytes-func, call_name, call_ref, call_arg,
}
use dstc.Queue.Laws.{
  stored, pending-stored, queue-collected, queue-stored, queue_pending_calls-sent, IsCall,
}
use dstc.Args.{Arg, client_function, size_arguments}
use dstc.Args.RoundTrip.{AllReadable, wires, dynamics, length-wires, fill_buffer_lem}

-- What a client function hands to dstc_queue_func.
abbrev pub argument_bytes : List Arg → List ℕ → List ℕ
argument_bytes args stale = wires args ++ take (2 * dynamics args) stale

pub length-argument_bytes :
    (args : List Arg) (stale : List ℕ)
    → AllReadable args
    → length (argument_bytes args stale) ≤ size_arguments args
length-argument_bytes args stale ok = omega (
  arith,
  length-wires args ok,
  length-append (wires args) (take (2 * dynamics args) stale),
  length-take (2 * dynamics args) stale,
)

module _ {Pub Sub : Type 0} (rmc : Rmc Pub Sub) (sys : System) where
  -- On a node that collects calls and has room, the client function leaves one more frame pending.
  pub client_function_lem :
      (ctx : Context Pub Sub) (pub_ctx : Pub) (name : List ℕ) (args : List Arg) (stale : List ℕ)
      → IsValid rmc.max_payload ctx
      → ctx.pub_ctx ≡ some pub_ctx
      → ctx.pub_is_buffering ≡ true
      → rmc.max_payload < 2 ^ 16
      → name ≢ []
      → AllReadable args
      → ctx.pub_buffer_ind + (7 + length name + size_arguments args) ≤ rmc.max_payload
      → (ctx' : Context Pub Sub) × (client_function rmc sys ctx name args stale ≡ done (0, ctx'))
        × (pending ctx'
            ≡ pending ctx
              ++ frame (rmc.pub_node_id pub_ctx) (func name (argument_bytes args stale)))
  unfolding client_function queue_func
  client_function_lem ctx pub_ctx name args stale v up on small named ok room =
      let call : Call = func name (argument_bytes args stale) in
      let node_id = rmc.pub_node_id pub_ctx in
      let held = lock_context-Sound rmc.max_payload ctx.lock ctx (v, refl) in
      let short = length-argument_bytes args stale ok in
      let size : length (frame node_id call) ≤ 7 + length name + size_arguments args = omega (
        arith,
        short,
        length-frame node_id call,
        length-payload_bytes-func name (argument_bytes args stale),
      ) in
      let put =
        queue-collected rmc sys (lock_context ctx) pub_ctx held.0 (unfold lock_context in up) small
          call named (unfold lock_context in on) (unfold lock_context in omega (arith, size)) in
      let put_func : queue rmc sys (lock_context ctx) (some name) 0 (argument_bytes args stale)
          ≡ done (0, stored (lock_context ctx) node_id call) =
        unfold call_name call_ref call_arg in put in
      (
        unlock_context (stored (lock_context ctx) node_id call),
        rw (fill_buffer_lem args stale ok (omega arith), put_func),
        unfold lock_context unlock_context in pending-stored ctx node_id call (omega arith),
      )

  -- The context after a call was handed to rmc as a packet of its own, the lock held.
  abbrev pub sent_context : Context Pub Sub → Pub → Call → Context Pub Sub
  sent_context ctx pub_ctx call =
      let node_id = rmc.pub_node_id pub_ctx in
      record (stored (lock_context ctx) node_id call) {
        pub_ctx = some (rmc.pub_queue_packet (frame node_id call) pub_ctx).1;
        pub_buffer_ind = 0;
      }

  -- On a node that does not collect calls and holds none, where rmc is not suspended and takes every
  -- packet, a call that fits goes out at once.
  pub queue-sent :
      (ctx : Context Pub Sub) (pub_ctx : Pub) (call : Call)
      → IsValid rmc.max_payload ctx
      → ctx.pub_ctx ≡ some pub_ctx
      → ctx.pub_is_buffering ≡ false
      → ctx.pub_buffer_ind ≡ 0
      → rmc.pub_traffic_suspended pub_ctx ≡ 0
      → ((bytes : List ℕ) → (rmc.pub_queue_packet bytes pub_ctx).0 ≡ 0)
      → rmc.max_payload < 2 ^ 16
      → IsCall call
      → length (frame (rmc.pub_node_id pub_ctx) call) ≤ rmc.max_payload
      → queue rmc sys (lock_context ctx) (call_name call) (call_ref call) (call_arg call)
        ≡ done (0, sent_context ctx pub_ctx call)
  queue-sent ctx pub_ctx call v up off empty free takes small named room =
      let node_id = rmc.pub_node_id pub_ctx in
      let packet = frame node_id call in
      let held = lock_context ctx in
      let sound = lock_context-Sound rmc.max_payload ctx.lock ctx (v, refl) in
      let gone : Pub = (rmc.pub_queue_packet packet pub_ctx).1 in
      let put =
        queue-stored rmc sys held pub_ctx sound.0 (unfold lock_context in up) small call named
          (unfold lock_context in omega (arith, room)) in
      let whole : pending (stored held node_id call) ≡ packet =
        unfold lock_context in
        pending-stored ctx node_id call (omega arith)
        ∙ ap (λ (n : ℕ). take n ctx.pub_buffer ++ packet) empty in
      let taken : rmc.pub_queue_packet (pending (stored held node_id call)) pub_ctx ≡ (0, gone) =
        ap (λ (bytes : List ℕ). rmc.pub_queue_packet bytes pub_ctx) whole
        ∙ ap (λ (n : ℕ). (n, gone)) (takes packet) in
      let went : queue_pending_calls rmc (stored held node_id call)
          ≡ done (sent_context ctx pub_ctx call) =
        queue_pending_calls-sent rmc (stored held node_id call) pub_ctx (unfold lock_context in up)
          {res = 0} {sent = gone} free (omega (arith, length-frame node_id call)) taken in
      let not_held : held.pub_is_buffering ≡ false = unfold lock_context in off in
      put
      ∙ if_false _ _ not_held
      ∙ ap (λ (m : Outcome (Context Pub Sub)). m >>= λ c. done (0, c)) went

  -- On a node that does not collect calls the frame is handed to rmc as a packet.
  pub client_function-sent :
      (ctx : Context Pub Sub) (pub_ctx : Pub) (name : List ℕ) (args : List Arg) (stale : List ℕ)
      → IsValid rmc.max_payload ctx
      → ctx.pub_ctx ≡ some pub_ctx
      → ctx.pub_is_buffering ≡ false
      → ctx.pub_buffer_ind ≡ 0
      → rmc.pub_traffic_suspended pub_ctx ≡ 0
      → ((bytes : List ℕ) → (rmc.pub_queue_packet bytes pub_ctx).0 ≡ 0)
      → rmc.max_payload < 2 ^ 16
      → name ≢ []
      → AllReadable args
      → 7 + length name + size_arguments args ≤ rmc.max_payload
      → let packet = frame (rmc.pub_node_id pub_ctx) (func name (argument_bytes args stale)) in
        (ctx' : Context Pub Sub) × (client_function rmc sys ctx name args stale ≡ done (0, ctx'))
        × (ctx'.pub_ctx ≡ some (rmc.pub_queue_packet packet pub_ctx).1)
        × (ctx'.pub_buffer_ind ≡ 0)
        × (ctx'.local_callback ≡ ctx.local_callback)
        × (ctx'.callback_ind ≡ ctx.callback_ind)
  unfolding client_function queue_func
  client_function-sent ctx pub_ctx name args stale v up off empty free takes small named ok room =
      let call : Call = func name (argument_bytes args stale) in
      let node_id = rmc.pub_node_id pub_ctx in
      let size : length (frame node_id call) ≤ 7 + length name + size_arguments args = omega (
        arith,
        length-frame node_id call,
        length-payload_bytes-func name (argument_bytes args stale),
        length-argument_bytes args stale ok,
      ) in
      let put =
        queue-sent ctx pub_ctx call v up off empty free takes small named (omega (arith, size)) in
      let put_func : queue rmc sys (lock_context ctx) (some name) 0 (argument_bytes args stale)
          ≡ done (0, sent_context ctx pub_ctx call) =
        unfold call_name call_ref call_arg in put in
      (
        unlock_context (sent_context ctx pub_ctx call),
        rw (fill_buffer_lem args stale ok (omega arith), put_func),
        unfold unlock_context in refl,
        unfold unlock_context in refl,
        unfold lock_context unlock_context in refl,
        unfold lock_context unlock_context in refl,
      )
