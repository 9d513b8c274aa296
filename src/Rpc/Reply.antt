-- ===== src/Rpc/Reply.antt =====
-- A reply: the function that DSTC_SERVER_CALLBACK of dstc.h makes, on top of dstc_queue_callback of
-- dstc.c, and the one that DSTC_CLIENT_CALLBACK makes on the client that waits for it.
use dstc.Base.{
  ℕ, ◌+◌, ◌^◌, ◌≤◌, ◌<◌, ◌≡◌, ◌≢◌, refl, sym, ap, ◌∙◌, arith, true, List, [], ◌∷◌, ◌++◌, none, some,
  map, false, length, take, ◌*◌, ◌==◌, append_assoc, append-nil, Outcome, done, >>=-done, if_false,
}
use dstc.Rmc.{Rmc, System}
use dstc.Context.{Context, pending, lock_context, unlock_context}
use dstc.Context.Valid.{IsValid}
use dstc.Context.Sound.{lock_context-Sound}
use dstc.Setup.Laws.{locked_lem}
use dstc.Callbacks.{find_ref, activate_callback, find_callback_by_ref}
use dstc.Callbacks.Laws.{find_callback_by_ref-activate_callback}
use dstc.Queue.{queue, queue_callback}
use dstc.Queue.Frame.{
  Call, reply, frame, length-frame, length-payload_bytes-reply, call_name, call_ref, call_arg,
}
use dstc.Queue.Laws.{stored, pending-stored, queue-collected}
use dstc.Dispatch.{Invocation, process_packet}
use dstc.Dispatch.Deliver.{IsSendable, deliver}
use dstc.Dispatch.Incoming.{frames, deliver_all, process_packet-frames}
use dstc.Args.{Arg, param, callback_function, server_function, deserialize, size_arguments}
use dstc.Args.RoundTrip.{AllReadable, view, wires, dynamics, deserialize-wires, fill_buffer_lem}
use dstc.Rpc.Client.{argument_bytes, length-argument_bytes, sent_context, queue-sent}
use dstc.Rpc.Server.{invoke_live}

module _ {Pub Sub : Type 0} (rmc : Rmc Pub Sub) (sys : System) where
  callback_function_lem :
      (ctx : Context Pub Sub) (pub_ctx : Pub) (ref : ℕ) (args : List Arg) (stale : List ℕ)
      → IsValid rmc.max_payload ctx
      → ctx.pub_ctx ≡ some pub_ctx
      → ctx.pub_is_buffering ≡ true
      → ctx.pub_buffer_ind ≡ 0
      → rmc.max_payload < 2 ^ 16
      → ref ≢ 0
      → AllReadable args
      → 15 + size_arguments args ≤ rmc.max_payload
      → (ctx' : Context Pub Sub) × (callback_function rmc sys ctx ref args stale ≡ done (0, ctx'))
        × (pending ctx' ≡ frame (rmc.pub_node_id pub_ctx) (reply ref (argument_bytes args stale)))
  unfolding callback_function queue_callback
  callback_function_lem ctx pub_ctx ref args stale v up on empty small named ok room =
      let call : Call = reply ref (argument_bytes args stale) in
      let node_id = rmc.pub_node_id pub_ctx in
      let held = lock_context ctx in
      let sound = lock_context-Sound rmc.max_payload ctx.lock ctx (v, refl) in
      let short = length-argument_bytes args stale ok in
      let size : length (frame node_id call) ≤ 15 + size_arguments args = omega (
        arith,
        short,
        length-frame node_id call,
        length-payload_bytes-reply ref (argument_bytes args stale),
      ) in
      let put =
        queue-collected rmc sys held pub_ctx sound.0 (unfold lock_context in up) small call named
          (unfold lock_context in on) (unfold lock_context in omega (arith, size)) in
      let put_reply : queue rmc sys held none ref (argument_bytes args stale)
          ≡ done (0, stored held node_id call) =
        unfold call_name call_ref call_arg in put in
      let queued : queue_callback rmc sys ctx ref (argument_bytes args stale)
          ≡ done (0, unlock_context (stored held node_id call)) =
        locked_lem {0} rmc sys ctx (λ c. queue rmc sys c none ref (argument_bytes args stale)) up
        ∙ rw put_reply in
      (
        unlock_context (stored held node_id call),
        if_false {b = ref == 0} (done (0, ctx)) _ (ground arith)
            ∙ rw (fill_buffer_lem args stale ok (omega arith)) queued,
        unfold lock_context unlock_context in
            pending-stored ctx node_id call (omega arith)
            ∙ ap (λ (n : ℕ). take n ctx.pub_buffer ++ frame node_id call) empty,
      )

  -- A callback on a node that does not collect calls and holds none, where rmc is not suspended and
  -- takes every packet.
  pub callback_function-sent :
      (ctx : Context Pub Sub) (pub_ctx : Pub) (ref : ℕ) (args : List Arg) (stale : List ℕ)
      → IsValid rmc.max_payload ctx
      → ctx.pub_ctx ≡ some pub_ctx
      → ctx.pub_is_buffering ≡ false
      → ctx.pub_buffer_ind ≡ 0
      → rmc.pub_traffic_suspended pub_ctx ≡ 0
      → ((bytes : List ℕ) → (rmc.pub_queue_packet bytes pub_ctx).0 ≡ 0)
      → rmc.max_payload < 2 ^ 16
      → ref ≢ 0
      → AllReadable args
      → 15 + size_arguments args ≤ rmc.max_payload
      → let packet = frame (rmc.pub_node_id pub_ctx) (reply ref (argument_bytes args stale)) in
        (ctx' : Context Pub Sub) × (callback_function rmc sys ctx ref args stale ≡ done (0, ctx'))
        × (ctx'.pub_ctx ≡ some (rmc.pub_queue_packet packet pub_ctx).1)
        × (ctx'.pub_buffer_ind ≡ 0)
  unfolding callback_function queue_callback
  callback_function-sent ctx pub_ctx ref args stale v up off empty free takes small named ok room =
      let call : Call = reply ref (argument_bytes args stale) in
      let node_id = rmc.pub_node_id pub_ctx in
      let size : length (frame node_id call) ≤ 15 + size_arguments args = omega (
        arith,
        length-frame node_id call,
        length-payload_bytes-reply ref (argument_bytes args stale),
        length-argument_bytes args stale ok,
      ) in
      let put =
        queue-sent rmc sys ctx pub_ctx call v up off empty free takes small named
          (omega (arith, size)) in
      let put_reply : queue rmc sys (lock_context ctx) none ref (argument_bytes args stale)
          ≡ done (0, sent_context rmc sys ctx pub_ctx call) =
        unfold call_name call_ref call_arg in put in
      let queued : queue_callback rmc sys ctx ref (argument_bytes args stale)
          ≡ done (0, unlock_context (sent_context rmc sys ctx pub_ctx call)) =
        locked_lem {0} rmc sys ctx (λ c. queue rmc sys c none ref (argument_bytes args stale)) up
        ∙ rw put_reply in
      (
        unlock_context (sent_context rmc sys ctx pub_ctx call),
        if_false {b = ref == 0} (done (0, ctx)) _ (ground arith)
            ∙ rw (fill_buffer_lem args stale ok (omega arith)) queued,
        unfold unlock_context in refl,
        unfold unlock_context in refl,
      )

module _ {Pub Sub : Type 0} (app : Invocation → Context Pub Sub → Outcome (Context Pub Sub)) where
  -- The callback that waits under a reference is called with arguments that name the server's bytes.
  pub deliver-callback_function :
      (node_id ref f : ℕ) (client : Context Pub Sub) (args : List Arg) (stale : List ℕ)
      (body : List Arg → Context Pub Sub → Outcome (Context Pub Sub))
      → f ≢ 0
      → (find_callback_by_ref client ref).0 ≡ f
      → AllReadable args
      → ((inv : Invocation) (c : Context Pub Sub)
          → inv.func ≡ f
          → app inv c ≡ server_function (map param args) body inv.payload c)
      → (args' : List Arg) × (deliver app node_id [] client (reply ref (argument_bytes args stale))
          ≡ body args' (find_callback_by_ref client ref).1)
        × (map view args' ≡ map view args)
  unfolding deliver server_function
  deliver-callback_function node_id ref f client args stale body live found ok runs =
      let rest = take (2 * dynamics args) stale in
      let (args', read, seen) = deserialize-wires args (rest ++ []) ok in
      let read' : deserialize (map param args) ((wires args ++ rest) ++ []) ≡ done args' =
        ap (deserialize (map param args)) (append_assoc (wires args) rest []) ∙ read in
      let arg = argument_bytes args stale in
      let taken = (find_callback_by_ref client ref).1 in
      let inv : Invocation = record {
        func = (find_callback_by_ref client ref).0;
        callback_ref = ref;
        node_id = node_id;
        name = [];
        payload = arg ++ [];
        payload_len = length arg;
      } in
      (args', invoke_live app inv taken f found live ∙ runs inv taken found ∙ rw read', seen)

  -- A packet that holds the reply alone.
  pub process_packet-callback_function :
      (node_id ref : ℕ) (arg : List ℕ) (client : Context Pub Sub)
      → node_id < 2 ^ 32
      → ref ≢ 0
      → ref < 2 ^ 64
      → 9 + length arg < 2 ^ 16
      → process_packet app client (frame node_id (reply ref arg))
        ≡ deliver app node_id [] client (reply ref arg)
  unfolding frames deliver_all
  process_packet-callback_function node_id ref arg client word named ref_word small =
      let call : Call = reply ref arg in
      let sendable : IsSendable call = (named, ref_word, small) in
      ap (process_packet app client) (sym (append-nil (frame node_id call)))
      ∙ process_packet-frames app client node_id (call ∷ []) word (sendable, tt)
      ∙ >>=-done (deliver app node_id [] client call)

-- A reply to a remote call. On a valid node that is set up, collects calls and holds none yet, with
-- RMC_MAX_PAYLOAD below 2^16 and a node id below 2^32: a callback function with a reference that is
-- not 0 and below 2^64, whose readable arguments fit the buffer, returns 0; and where a valid node
-- activated a callback that is not null under this reference, in a table where no slot had it, and
-- DSTC_CLIENT_CALLBACK made the callback for the same types, the processing of the pending bytes
-- calls it once, with the reference taken out of the table and with arguments that name the same
-- bytes.
pub callback_call :
    {Pub Sub Pub' Sub' : Type 0} (rmc : Rmc Pub Sub) (sys : System) (ctx : Context Pub Sub)
    (pub_ctx : Pub) (ref : ℕ) (args : List Arg) (stale : List ℕ)
    (app : Invocation → Context Pub' Sub' → Outcome (Context Pub' Sub')) (max_payload f k : ℕ)
    (before client : Context Pub' Sub')
    (body : List Arg → Context Pub' Sub' → Outcome (Context Pub' Sub'))
    → IsValid rmc.max_payload ctx
    → ctx.pub_ctx ≡ some pub_ctx
    → ctx.pub_is_buffering ≡ true
    → ctx.pub_buffer_ind ≡ 0
    → rmc.max_payload < 2 ^ 16
    → rmc.pub_node_id pub_ctx < 2 ^ 32
    → ref ≢ 0
    → ref < 2 ^ 64
    → AllReadable args
    → 15 + size_arguments args ≤ rmc.max_payload
    → IsValid max_payload before
    → f ≢ 0
    → find_ref before.local_callback ref 0 before.callback_ind ≡ none
    → activate_callback before ref f ≡ done (k, client)
    → ((inv : Invocation) (c : Context Pub' Sub')
        → inv.func ≡ f
        → app inv c ≡ server_function (map param args) body inv.payload c)
    → (ctx' : Context Pub Sub) × (args' : List Arg) × (callback_function rmc sys ctx ref args stale
        ≡ done (0, ctx'))
      × (process_packet app client (pending ctx') ≡ body args' (find_callback_by_ref client ref).1)
      × (map view args' ≡ map view args)
callback_call rmc sys ctx pub_ctx ref args stale app max_payload f k before client body v up on
      empty small word named ref_word ok room v' live fresh active runs =
    let node_id = rmc.pub_node_id pub_ctx in
    let arg = argument_bytes args stale in
    let call : Call = reply ref arg in
    let (ctx', made, bytes) =
      callback_function_lem rmc sys ctx pub_ctx ref args stale v up on empty small named ok room in
    let (args', called, seen) =
      deliver-callback_function app node_id ref f client args stale body live
        (find_callback_by_ref-activate_callback max_payload before ref f v' live named fresh
          active).0
        ok runs in
    let small_arg : 9 + length arg < 2 ^ 16 = omega (arith, length-argument_bytes args stale ok) in
    let sent : process_packet app client (pending ctx')
        ≡ body args' (find_callback_by_ref client ref).1 =
      ap (process_packet app client) bytes
      ∙ process_packet-callback_function app node_id ref arg client word named ref_word small_arg
      ∙ called in
    (ctx', args', made, sent, seen)
