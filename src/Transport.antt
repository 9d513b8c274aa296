-- ===== src/Transport.antt =====
-- Two nodes: calls that one collects in its buffer, sends as one packet, and the other processes.
-- dstc.c's `_dstc_queue`, `_queue_pending_calls` and `dstc_process_incoming` together.
use dstc.Base.{
  ℕ, ◌+◌, ◌^◌, ◌≤◌, ◌<◌, ◌≡◌, refl, sym, ap, ◌∙◌, true, List, [], ◌∷◌, ◌++◌, some, arith, length,
  length-append, append_assoc, append-nil, Outcome, done, ◌>>=◌, if◌then◌else◌, ◌==◌, exit,
}
use dstc.Rmc.{Rmc, System}
use dstc.Context.{Context, pending}
use dstc.Context.Valid.{IsValid}
use dstc.Queue.{queue, queue_pending_calls}
use dstc.Queue.Frame.{Call, frame, call_name, call_ref, call_arg}
use dstc.Queue.Laws.{
  stored, stored-IsValid, pending-stored, queue-collected, queue_pending_calls-sent,
}
use dstc.Dispatch.{Invocation, process_packet}
use dstc.Dispatch.Deliver.{IsSendable-IsCall}
use dstc.Dispatch.Incoming.{frames, AllSendable, deliver_all, process_packet-frames}

module _ {Pub Sub : Type 0} (rmc : Rmc Pub Sub) (sys : System) where
  -- The application makes the calls one after the other, whatever each returns.
  unfoldable pub queue_all : Context Pub Sub → List Call → Outcome (Context Pub Sub)
  queue_all ctx [] = done ctx
  queue_all ctx (call ∷ calls) = do
    (res, ctx) ← queue rmc sys ctx (call_name call) (call_ref call) (call_arg call)
    queue_all ctx calls

  -- While calls are being collected and fit, the buffer ends up with their frames, in order.
  pub pending-queue_all :
      (ctx : Context Pub Sub) (pub_ctx : Pub) (calls : List Call)
      → IsValid rmc.max_payload ctx
      → ctx.pub_ctx ≡ some pub_ctx
      → ctx.pub_is_buffering ≡ true
      → rmc.max_payload < 2 ^ 16
      → AllSendable calls
      → ctx.pub_buffer_ind + length (frames (rmc.pub_node_id pub_ctx) calls) ≤ rmc.max_payload
      → (ctx' : Context Pub Sub) × (queue_all ctx calls ≡ done ctx')
        × (ctx'.pub_ctx ≡ some pub_ctx)
        × (ctx'.pub_buffer_ind
            ≡ ctx.pub_buffer_ind + length (frames (rmc.pub_node_id pub_ctx) calls))
        × (pending ctx' ≡ pending ctx ++ frames (rmc.pub_node_id pub_ctx) calls)
  unfolding queue_all frames
  pending-queue_all ctx pub_ctx [] v up on small ok room =
      (ctx, refl, up, omega arith, sym (append-nil (pending ctx)))
  pending-queue_all ctx pub_ctx (call ∷ calls) v up on small ok room =
      let node_id = rmc.pub_node_id pub_ctx in
      let later = frames node_id calls in
      let size = length-append (frame node_id call) later in
      let fits : ctx.pub_buffer_ind + length (frame node_id call) ≤ rmc.max_payload = omega arith in
      let next = stored ctx node_id call in
      let (ctx', done_all, up', ind', all) =
        pending-queue_all next pub_ctx calls (stored-IsValid rmc ctx node_id call v fits) up on
          small ok.1 (omega arith) in
      (
        ctx',
        rw
            (queue-collected rmc sys ctx pub_ctx v up small call (IsSendable-IsCall call ok.0) on
              fits)
            done_all,
        up',
        omega (arith, ind', size),
        all
            ∙ ap (λ (bytes : List ℕ). bytes ++ later)
                (pending-stored ctx node_id call (omega arith))
            ∙ append_assoc (pending ctx) (frame node_id call) later,
      )

-- From one node to another. On a valid context that is set up, collects calls, holds none yet and
-- whose rmc has a node id below 2^32 and is not suspended, calls that a sender can make and whose
-- frames, not empty, fit RMC_MAX_PAYLOAD (below 2^16) are all taken; the next _queue_pending_calls
-- hands rmc one packet and leaves the buffer empty, or ends the process if rmc refuses the packet;
-- and a node that processes this packet delivers exactly these calls in their order.
pub transport :
    {Pub Sub : Type 0} (rmc : Rmc Pub Sub) (sys : System) (ctx : Context Pub Sub) (pub_ctx : Pub)
    (calls : List Call) {Pub' Sub' : Type 0}
    (app : Invocation → Context Pub' Sub' → Outcome (Context Pub' Sub'))
    (receiver : Context Pub' Sub')
    → IsValid rmc.max_payload ctx
    → ctx.pub_ctx ≡ some pub_ctx
    → ctx.pub_is_buffering ≡ true
    → ctx.pub_buffer_ind ≡ 0
    → rmc.max_payload < 2 ^ 16
    → AllSendable calls
    → rmc.pub_node_id pub_ctx < 2 ^ 32
    → 0 < length (frames (rmc.pub_node_id pub_ctx) calls)
    → length (frames (rmc.pub_node_id pub_ctx) calls) ≤ rmc.max_payload
    → rmc.pub_traffic_suspended pub_ctx ≡ 0
    → (packet : List ℕ) × (ctx' : Context Pub Sub) × (queue_all rmc sys ctx calls ≡ done ctx')
      × (queue_pending_calls rmc ctx' ≡ (
          let (res, sent) = rmc.pub_queue_packet packet pub_ctx in
          if res == 0
          then done (record ctx' { pub_ctx = some sent; pub_buffer_ind = 0 })
          else exit 255))
      × (process_packet app receiver packet
          ≡ deliver_all app (rmc.pub_node_id pub_ctx) receiver calls)
transport rmc sys ctx pub_ctx calls app receiver v up on empty small ok word some_calls room free =
    let node_id = rmc.pub_node_id pub_ctx in
    let (ctx', made, up', ind', all) =
      pending-queue_all rmc sys ctx pub_ctx calls v up on small ok (omega arith) in
    let packet_eq : pending ctx' ≡ frames node_id calls = all ∙ rw empty in
    (
      frames node_id calls,
      ctx',
      made,
      queue_pending_calls-sent rmc ctx' pub_ctx up' free (omega arith) (rw packet_eq),
      process_packet-frames app receiver node_id calls word ok,
    )
