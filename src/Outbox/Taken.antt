-- ===== src/Outbox/Taken.antt =====
-- Whole runs of a sender, and the outbox that the context of dstc.c stands for meanwhile.
use dstc.Base.{
  ℕ, ◌^◌, ◌<◌, ◌≡◌, ◌⊎◌, refl, sym, ap, ◌∙◌, arith, Bool, true, false, List, [], ◌∷◌, ◌++◌, Option,
  none, some, length, append-nil, append_assoc, ◌==◌, if◌then◌else◌, done, ◌>>=◌, Bool-cases, inl,
  inr, if_true, if_false, subst,
}
use dstc.Rmc.{Rmc, System}
use dstc.Context.{Context, lock_context, unlock_context}
use dstc.Setup.{ebusy}
use dstc.Setup.Laws.{locked_lem}
use dstc.Queue.{queue_pending_calls, buffer_client_calls, flush_client_calls, unbuffer_client_calls}
use dstc.Queue.Frame.{Call, frame}
use dstc.Dispatch.Deliver.{IsSendable}
use dstc.Dispatch.Incoming.{AllSendable}
use dstc.Outbox.{QueueLaws, Outbox, taken, Represents}
use dstc.Outbox.Steps.{Represents-queue, Represents-queue_pending_calls}
use dstc.Outbox.Runs.{
  Op, call, buffer, flush, unbuffer, traffic, queue_call, perform, perform_all, queue_call_lem,
  IsOp, AllOps,
}

AllSendable-append :
    (xs : List Call) (ys : List Call) → AllSendable xs → AllSendable ys → AllSendable (xs ++ ys)
AllSendable-append [] ys hx hy = hy
AllSendable-append (x ∷ xs) ys hx hy = (hx.0, AllSendable-append xs ys hx.1 hy)

module _ {Pub Sub : Type 0} (rmc : Rmc Pub Sub) (sys : System) where
  module _ (sent : Pub → List (List ℕ)) (node_id : ℕ) where
    module _ (small : rmc.max_payload < 2 ^ 16) (laws : QueueLaws rmc sent) where
      pub Represents-lock :
          (ctx : Context Pub Sub) (p : Pub) (o : Outbox)
          → Represents rmc sys sent small node_id ctx p o
          → Represents rmc sys sent small node_id (lock_context ctx) p o
      unfolding lock_context
      Represents-lock ctx p o r = record {
        valid = ground arith;
        up = r.up;
        own_id = r.own_id;
        pending_frames = r.pending_frames;
        sent_frames = r.sent_frames;
      }

      pub Represents-unlock :
          (ctx : Context Pub Sub) (p : Pub) (o : Outbox)
          → Represents rmc sys sent small node_id ctx p o
          → Represents rmc sys sent small node_id (unlock_context ctx) p o
      unfolding unlock_context
      Represents-unlock ctx p o r = record {
        valid = ground arith;
        up = r.up;
        own_id = r.own_id;
        pending_frames = r.pending_frames;
        sent_frames = r.sent_frames;
      }

      Represents-mode :
          (ctx : Context Pub Sub) (p : Pub) (o : Outbox) (mode : Bool)
          → Represents rmc sys sent small node_id ctx p o
          → Represents rmc sys sent small node_id (record ctx { pub_is_buffering = mode }) p o
      Represents-mode ctx p o mode r = record {
        valid = ground arith;
        up = r.up;
        own_id = r.own_id;
        pending_frames = r.pending_frames;
        sent_frames = r.sent_frames;
      }

      -- A call of the API is taken exactly if it returns 0, and it returns 0 or EBUSY.
      pub Represents-queue_call :
          (ctx : Context Pub Sub) (p : Pub) (o : Outbox) (c : Call)
          → Represents rmc sys sent small node_id ctx p o
          → IsSendable c
          → length (frame node_id c) < 2 ^ 16
          → (res : ℕ) × (ctx' : Context Pub Sub) × (p' : Pub) × (o' : Outbox) × (queue_call rmc sys
                ctx c
              ≡ done (res, ctx'))
            × Represents rmc sys sent small node_id ctx' p' o'
            × (taken o' ≡ taken o ++ (if res == 0 then c ∷ [] else []))
            × ((res ≡ 0) ⊎ (res ≡ ebusy))
      Represents-queue_call ctx p o c r ok short =
          let (res, ctx', p', o', went, r', same, known) =
            Represents-queue rmc sys sent small laws node_id (lock_context ctx) p o c
              (Represents-lock ctx p o r) ok short in
          (
            res,
            unlock_context ctx',
            p',
            o',
            rw (queue_call_lem rmc sys ctx c r.up, went),
            Represents-unlock ctx' p' o' r',
            same,
            known,
          )

      pub Represents-unbuffer :
          (ctx : Context Pub Sub) (p : Pub) (o : Outbox)
          → Represents rmc sys sent small node_id ctx p o
          → (ctx' : Context Pub Sub) × (p' : Pub) × (o' : Outbox) × (unbuffer_client_calls rmc sys
                ctx
              ≡ done (tt, ctx'))
            × Represents rmc sys sent small node_id ctx' p' o'
            × (taken o' ≡ taken o)
      unfolding unbuffer_client_calls
      Represents-unbuffer ctx p o r =
          let off : Context Pub Sub = record (lock_context ctx) { pub_is_buffering = false } in
          let (ctx', p', o', went, r', same) =
            Represents-queue_pending_calls rmc sys sent small laws node_id off p o
              (Represents-mode (lock_context ctx) p o false (Represents-lock ctx p o r)) in
          (
            unlock_context ctx',
            p',
            o',
            rw (
              locked_lem {0} rmc sys ctx
                  (λ c. queue_pending_calls rmc (record c { pub_is_buffering = false }) >>= λ c.
                    done (tt, c))
                  r.up,
              went,
            ),
            Represents-unlock ctx' p' o' r',
            same,
          )

      Represents-perform :
          (ctx : Context Pub Sub) (p : Pub) (o : Outbox) (op : Op Pub)
          → Represents rmc sys sent small node_id ctx p o
          → IsOp rmc sys sent node_id op
          → (calls : List Call) × (ctx' : Context Pub Sub) × (p' : Pub) × (o' : Outbox) × (perform
                rmc sys ctx op
              ≡ done (calls, ctx'))
            × Represents rmc sys sent small node_id ctx' p' o'
            × (taken o' ≡ taken o ++ calls)
            × AllSendable calls
      unfolding perform
      Represents-perform ctx p o (call c) r ok =
          let (res, ctx', p', o', went, r', same, known) =
            Represents-queue_call ctx p o c r ok.0 ok.1 in
          (
            (if res == 0 then c ∷ [] else []),
            ctx',
            p',
            o',
            rw went,
            r',
            same,
            elim (Bool-cases (res == 0)) [
              | inl zero_res ↦ subst AllSendable (sym (if_true (c ∷ []) [] zero_res)) (ok.0, tt)
              | inr other ↦ subst AllSendable (sym (if_false (c ∷ []) [] other)) tt
            ],
          )
      Represents-perform ctx p o buffer r ok =
          let on : Context Pub Sub = record (lock_context ctx) { pub_is_buffering = true } in
          (
            [],
            unlock_context on,
            p,
            o,
            unfold buffer_client_calls in
                rw (
                  locked_lem {0} rmc sys ctx (λ c. done (tt, record c { pub_is_buffering = true }))
                    r.up),
            Represents-unlock on p o
                (Represents-mode (lock_context ctx) p o true (Represents-lock ctx p o r)),
            sym (append-nil (taken o)),
            tt,
          )
      Represents-perform ctx p o flush r ok =
          let (ctx', p', o', went, r', same) =
            Represents-queue_pending_calls rmc sys sent small laws node_id (lock_context ctx) p o
              (Represents-lock ctx p o r) in
          (
            [],
            unlock_context ctx',
            p',
            o',
            unfold flush_client_calls in
                rw (
                  locked_lem {0} rmc sys ctx (λ c. queue_pending_calls rmc c >>= λ c. done (tt, c))
                      r.up,
                  went,
                ),
            Represents-unlock ctx' p' o' r',
            same ∙ sym (append-nil (taken o)),
            tt,
          )
      Represents-perform ctx p o unbuffer r ok =
          let (ctx', p', o', went, r', same) = Represents-unbuffer ctx p o r in
          ([], ctx', p', o', rw went, r', same ∙ sym (append-nil (taken o)), tt)
      Represents-perform ctx p o (traffic change) r ok = (
        [],
        record ctx { pub_ctx = some (change p) },
        change p,
        o,
        ap
            (λ (q : Option Pub). elim q [
              | none ↦ done ([], ctx)
              | some p ↦ done ([], record ctx { pub_ctx = some (change p) })
            ])
            r.up,
        record {
          valid = ground arith;
          up = refl;
          own_id = (ok p).1 ∙ r.own_id;
          pending_frames = r.pending_frames;
          sent_frames = (ok p).0 ∙ r.sent_frames;
        },
        sym (append-nil (taken o)),
        tt,
      )

      pub perform_all-taken :
          (ctx : Context Pub Sub) (p : Pub) (o : Outbox) (ops : List (Op Pub))
          → Represents rmc sys sent small node_id ctx p o
          → AllOps rmc sys sent node_id ops
          → (calls : List Call) × (ctx' : Context Pub Sub) × (p' : Pub) × (o' : Outbox)
            × (perform_all rmc sys ctx ops ≡ done (calls, ctx'))
            × Represents rmc sys sent small node_id ctx' p' o'
            × (taken o' ≡ taken o ++ calls)
            × AllSendable calls
      unfolding perform_all
      perform_all-taken ctx p o [] r ok = ([], ctx, p, o, refl, r, sym (append-nil (taken o)), tt)
      perform_all-taken ctx p o (op ∷ ops) r ok =
          let (calls, ctx1, p1, o1, first, r1, same1, ok1) = Represents-perform ctx p o op r ok.0 in
          let (more, ctx2, p2, o2, rest, r2, same2, ok2) =
            perform_all-taken ctx1 p1 o1 ops r1 ok.1 in
          (
            calls ++ more,
            ctx2,
            p2,
            o2,
            rw (first, rest),
            r2,
            same2 ∙ ap (λ (cs : List Call). cs ++ more) same1 ∙ append_assoc (taken o) calls more,
            AllSendable-append calls more ok1 ok2,
          )
