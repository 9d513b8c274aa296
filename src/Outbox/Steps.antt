-- ===== src/Outbox/Steps.antt =====
-- `_dstc_queue` and `_queue_pending_calls` of dstc.c, one call at a time, and the outbox that their
-- context stands for.
use dstc.Base.{
  ℕ, ◌+◌, ◌^◌, ◌≤◌, ◌<◌, ◌≡◌, ◌⊎◌, refl, sym, ap, ◌∙◌, List, [], ◌∷◌, ◌++◌, some, arith, length,
  append-nil, ◌==◌, if◌then◌else◌, done, ◌>>=◌, inl, inr, Bool-cases, ltb, ◌&&◌, if_true, if_false,
}
use dstc.Rmc.{Rmc, System}
use dstc.Context.{Context, pending}
use dstc.Setup.{ebusy}
use dstc.Queue.{queue, queue_pending_calls}
use dstc.Queue.Frame.{Call, frame, call_name, call_ref, call_arg}
use dstc.Queue.Laws.{
  stored, pending-stored, stored-IsValid, queue-stored, queue-full, queue_pending_calls-sent,
  queue_pending_calls-held,
}
use dstc.Dispatch.Deliver.{IsSendable, IsSendable-IsCall}
use dstc.Dispatch.Incoming.{frames, frames-snoc}
use dstc.Outbox.{
  QueueLaws, Outbox, Represents, taken, flushed, posted, map-snoc, taken-flushed, taken-posted,
}

module _ {Pub Sub : Type 0} (rmc : Rmc Pub Sub) (sys : System) (sent : Pub → List (List ℕ))
    (small : rmc.max_payload < 2 ^ 16) where
  module _ (laws : QueueLaws rmc sent) where
    -- Where rmc is not suspended and something is pending, all that waits becomes one packet.
    Represents-sent :
        (node_id : ℕ) (ctx : Context Pub Sub) (pub_ctx : Pub) (o : Outbox)
        → Represents rmc sys sent small node_id ctx pub_ctx o
        → rmc.pub_traffic_suspended pub_ctx ≡ 0
        → 0 < ctx.pub_buffer_ind
        → (pub_ctx' : Pub) × (queue_pending_calls rmc ctx
            ≡ done (record ctx { pub_ctx = some pub_ctx'; pub_buffer_ind = 0 }))
          × Represents rmc sys sent small node_id
              (record ctx { pub_ctx = some pub_ctx'; pub_buffer_ind = 0 })
              pub_ctx'
              (flushed o)
    Represents-sent node_id ctx pub_ctx o r free some_calls =
        let ok = laws.accepted (pending ctx) pub_ctx free in
        let pub_ctx' = (rmc.pub_queue_packet (pending ctx) pub_ctx).1 in
        (
          pub_ctx',
          queue_pending_calls-sent rmc ctx pub_ctx r.up {res = 0} {sent = pub_ctx'} free some_calls
              (ap (λ (n : ℕ). (n, pub_ctx')) ok),
          record {
            valid = ground arith;
            up = refl;
            own_id = laws.node_id-queue (pending ctx) pub_ctx ∙ r.own_id;
            pending_frames = unfold frames in refl;
            sent_frames =
                laws.sent-queue (pending ctx) pub_ctx ok
                ∙ rw (r.sent_frames, r.pending_frames)
                    (sym (map-snoc (frames node_id) o.packets o.waiting));
          },
        )

    -- Handing the pending calls to rmc moves what waits into one packet, or does nothing.
    pub Represents-queue_pending_calls :
        (node_id : ℕ) (ctx : Context Pub Sub) (pub_ctx : Pub) (o : Outbox)
        → Represents rmc sys sent small node_id ctx pub_ctx o
        → (ctx' : Context Pub Sub) × (pub_ctx' : Pub) × (o' : Outbox) × (queue_pending_calls rmc ctx
            ≡ done ctx')
          × Represents rmc sys sent small node_id ctx' pub_ctx' o'
          × (taken o' ≡ taken o)
    Represents-queue_pending_calls node_id ctx pub_ctx o r =
        elim (Bool-cases (rmc.pub_traffic_suspended pub_ctx == 0 && ltb 0 ctx.pub_buffer_ind)) [
          | inr held ↦ (
            ctx,
            pub_ctx,
            o,
            queue_pending_calls-held rmc ctx pub_ctx r.up (ground arith),
            r,
            refl,
          )
          | inl ready ↦
              let (pub_ctx', gone, r') =
                Represents-sent node_id ctx pub_ctx o r (ground arith) (ground arith) in
              (
                record ctx { pub_ctx = some pub_ctx'; pub_buffer_ind = 0 },
                pub_ctx',
                flushed o,
                gone,
                r',
                taken-flushed o,
              )
        ]

    pub Represents-stored :
        (node_id : ℕ) (ctx : Context Pub Sub) (pub_ctx : Pub) (o : Outbox) (call : Call)
        → Represents rmc sys sent small node_id ctx pub_ctx o
        → ctx.pub_buffer_ind + length (frame node_id call) ≤ rmc.max_payload
        → Represents rmc sys sent small node_id (stored ctx node_id call) pub_ctx (posted o call)
    Represents-stored node_id ctx pub_ctx o call r room = record {
      valid = stored-IsValid rmc ctx node_id call r.valid room;
      up = r.up;
      own_id = r.own_id;
      pending_frames =
          pending-stored ctx node_id call (omega arith)
          ∙ rw (r.pending_frames) (sym (frames-snoc node_id o.waiting call));
      sent_frames = r.sent_frames;
    }

    length-own_frame :
        (node_id : ℕ) (ctx : Context Pub Sub) (pub_ctx : Pub) (o : Outbox) (call : Call)
        → Represents rmc sys sent small node_id ctx pub_ctx o
        → length (frame (rmc.pub_node_id pub_ctx) call) ≡ length (frame node_id call)
    length-own_frame node_id ctx pub_ctx o call r = ap (λ (n : ℕ). length (frame n call)) r.own_id

    -- A call for which there is room is taken.
    Represents-room :
        (node_id : ℕ) (ctx : Context Pub Sub) (pub_ctx : Pub) (o : Outbox) (call : Call)
        → Represents rmc sys sent small node_id ctx pub_ctx o
        → IsSendable call
        → ctx.pub_buffer_ind + length (frame node_id call) ≤ rmc.max_payload
        → (ctx' : Context Pub Sub) × (pub_ctx' : Pub) × (o' : Outbox) × (queue rmc sys ctx
              (call_name call)
              (call_ref call)
              (call_arg call)
            ≡ done (0, ctx'))
          × Represents rmc sys sent small node_id ctx' pub_ctx' o'
          × (taken o' ≡ taken o ++ call ∷ [])
    Represents-room node_id ctx pub_ctx o call r ok fits =
        let kept = Represents-stored node_id ctx pub_ctx o call r fits in
        let put =
          queue-stored rmc sys ctx pub_ctx r.valid r.up small call (IsSendable-IsCall call ok)
            (omega (arith, length-own_frame node_id ctx pub_ctx o call r)) in
        let put' = rw r.own_id at put in
        elim (Bool-cases ctx.pub_is_buffering) [
          | inl on ↦ (
            stored ctx node_id call,
            pub_ctx,
            posted o call,
            put' ∙ if_true _ _ on,
            kept,
            taken-posted o call,
          )
          | inr off ↦
              let (ctx', pub_ctx', o', went, r', same) =
                Represents-queue_pending_calls node_id (stored ctx node_id call) pub_ctx
                  (posted o call) kept in
              (
                ctx',
                pub_ctx',
                o',
                put' ∙ if_false _ _ off ∙ rw went,
                r',
                same ∙ taken-posted o call,
              )
        ]

    -- A call for which there is no room is refused, and the pending calls are handed to rmc.
    queue-refused :
        (node_id : ℕ) (ctx : Context Pub Sub) (pub_ctx : Pub) (o : Outbox) (call : Call)
        → Represents rmc sys sent small node_id ctx pub_ctx o
        → IsSendable call
        → length (frame node_id call) < 2 ^ 16
        → rmc.max_payload < ctx.pub_buffer_ind + length (frame node_id call)
        → queue rmc sys ctx (call_name call) (call_ref call) (call_arg call)
          ≡ (queue_pending_calls rmc ctx >>= λ c. done (ebusy, c))
    queue-refused node_id ctx pub_ctx o call r ok short full =
        let size = length-own_frame node_id ctx pub_ctx o call r in
        queue-full rmc sys ctx pub_ctx r.valid r.up small call (IsSendable-IsCall call ok)
          (ground (arith, size)) (omega (arith, size))

    -- A call is taken exactly if the result is 0.
    pub Represents-queue :
        (node_id : ℕ) (ctx : Context Pub Sub) (pub_ctx : Pub) (o : Outbox) (call : Call)
        → Represents rmc sys sent small node_id ctx pub_ctx o
        → IsSendable call
        → length (frame node_id call) < 2 ^ 16
        → (res : ℕ) × (ctx' : Context Pub Sub) × (pub_ctx' : Pub) × (o' : Outbox) × (queue rmc sys
              ctx
              (call_name call)
              (call_ref call)
              (call_arg call)
            ≡ done (res, ctx'))
          × Represents rmc sys sent small node_id ctx' pub_ctx' o'
          × (taken o' ≡ taken o ++ (if res == 0 then call ∷ [] else []))
          × ((res ≡ 0) ⊎ (res ≡ ebusy))
    Represents-queue node_id ctx pub_ctx o call r ok short =
        elim (Bool-cases (ltb rmc.max_payload (ctx.pub_buffer_ind + length (frame node_id call)))) [
          | inl full ↦
              let (ctx', pub_ctx', o', went, r', same) =
                Represents-queue_pending_calls node_id ctx pub_ctx o r in
              let refused = queue-refused node_id ctx pub_ctx o call r ok short (ground arith) in
              (
                ebusy,
                ctx',
                pub_ctx',
                o',
                refused ∙ rw went,
                r',
                same ∙ sym (append-nil (taken o)),
                inr refl,
              )
          | inr room ↦
              let (ctx', pub_ctx', o', put, r', same) =
                Represents-room node_id ctx pub_ctx o call r ok (ground arith) in
              (0, ctx', pub_ctx', o', put, r', same, inl refl)
        ]

    -- A refused call is worth a second attempt. On a context that stands for an outbox, with
    -- RMC_MAX_PAYLOAD below 2^16, where rmc is not suspended, fails no packet, sends packets in
    -- order and keeps its id: a call that a sender can make and whose frame fits the empty buffer
    -- is taken, by the first _dstc_queue or, if that returns EBUSY, by a second one with the same
    -- arguments; the calls taken are then those of before and this one, once.
    pub queue-retry :
        (node_id : ℕ) (ctx : Context Pub Sub) (pub_ctx : Pub) (o : Outbox) (call : Call)
        → Represents rmc sys sent small node_id ctx pub_ctx o
        → IsSendable call
        → length (frame node_id call) ≤ rmc.max_payload
        → rmc.pub_traffic_suspended pub_ctx ≡ 0
        → (ctx' : Context Pub Sub) × (pub_ctx' : Pub) × (o' : Outbox) × ((queue rmc sys ctx
                (call_name call)
                (call_ref call)
                (call_arg call)
              >>= λ r.
                  if r.0 == ebusy
                  then queue rmc sys r.1 (call_name call) (call_ref call) (call_arg call)
                  else done r)
            ≡ done (0, ctx'))
          × Represents rmc sys sent small node_id ctx' pub_ctx' o'
          × (taken o' ≡ taken o ++ call ∷ [])
    queue-retry node_id ctx pub_ctx o call r ok fits free =
        elim (Bool-cases (ltb rmc.max_payload (ctx.pub_buffer_ind + length (frame node_id call)))) [
          | inr room ↦
              let (ctx', pub_ctx', o', put, r', same) =
                Represents-room node_id ctx pub_ctx o call r ok (ground arith) in
              (ctx', pub_ctx', o', rw put, r', same)
          | inl full ↦
              let (p, gone, sent_r) = Represents-sent node_id ctx pub_ctx o r free (ground arith) in
              let (ctx', pub_ctx', o', put, r', same) =
                Represents-room node_id (record ctx { pub_ctx = some p; pub_buffer_ind = 0 }) p
                  (flushed o) call sent_r ok (omega arith) in
              let refused =
                queue-refused node_id ctx pub_ctx o call r ok (ground arith) (ground arith) in
              (
                ctx',
                pub_ctx',
                o',
                rw (refused, gone) put,
                r',
                same ∙ ap (λ (cs : List Call). cs ++ call ∷ []) (taken-flushed o),
              )
        ]
