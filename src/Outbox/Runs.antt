-- ===== src/Outbox/Runs.antt =====
-- Whole runs of a sender: calls by dstc_queue_func and dstc_queue_callback of dstc.c, the functions that
-- steer the buffering, and changes of the traffic that rmc reports.
use dstc.Base.{
  ℕ, ◌^◌, ◌<◌, ◌≡◌, refl, List, [], ◌∷◌, ◌++◌, none, some, length, ◌==◌, if◌then◌else◌, Outcome,
  done, ◌>>=◌,
}
use dstc.Rmc.{Rmc, System}
use dstc.Context.{Context, lock_context, unlock_context}
use dstc.Setup.Laws.{locked_lem}
use dstc.Queue.{
  queue, queue_func, queue_callback, buffer_client_calls, flush_client_calls, unbuffer_client_calls,
}
use dstc.Queue.Frame.{Call, func, reply, frame, call_name, call_ref, call_arg}
use dstc.Dispatch.Deliver.{IsSendable}

pub data Op (Pub : Type 0) : Type 0 where
  call : Call → Op Pub
  buffer : Op Pub
  flush : Op Pub
  unbuffer : Op Pub
  -- what happens to the publisher between two calls of the API
  traffic : (Pub → Pub) → Op Pub

module _ {Pub Sub : Type 0} (rmc : Rmc Pub Sub) (sys : System) where
  unfoldable pub queue_call : Context Pub Sub → Call → Outcome (ℕ × Context Pub Sub)
  queue_call ctx (func name arg) = queue_func rmc sys ctx name arg
  queue_call ctx (reply ref arg) = queue_callback rmc sys ctx ref arg

  -- The calls for which the result was 0, and the context.
  unfoldable pub perform : Context Pub Sub → Op Pub → Outcome (List Call × Context Pub Sub)
  perform ctx (call c) = queue_call ctx c >>= λ r. done ((if r.0 == 0 then c ∷ [] else []), r.1)
  perform ctx buffer = buffer_client_calls rmc sys ctx >>= λ r. done ([], r.1)
  perform ctx flush = flush_client_calls rmc sys ctx >>= λ r. done ([], r.1)
  perform ctx unbuffer = unbuffer_client_calls rmc sys ctx >>= λ r. done ([], r.1)
  perform ctx (traffic change) = elim ctx.pub_ctx [
    | none ↦ done ([], ctx)
    | some p ↦ done ([], record ctx { pub_ctx = some (change p) })
  ]

  unfoldable pub perform_all :
      Context Pub Sub → List (Op Pub) → Outcome (List Call × Context Pub Sub)
  perform_all ctx [] = done ([], ctx)
  perform_all ctx (op ∷ ops) = do
    (calls, ctx) ← perform ctx op
    (more, ctx) ← perform_all ctx ops
    done (calls ++ more, ctx)

  pub queue_call_lem :
      (ctx : Context Pub Sub) {p : Pub} (c : Call)
      → ctx.pub_ctx ≡ some p
      → queue_call ctx c ≡ (
          queue rmc sys (lock_context ctx) (call_name c) (call_ref c) (call_arg c) >>= λ r.
          done (r.0, unlock_context r.1))
  unfolding queue_call queue_func queue_callback call_name call_ref call_arg
  queue_call_lem ctx (func name arg) up = refl
  queue_call_lem ctx (reply ref arg) up =
      locked_lem rmc sys ctx (λ c. queue rmc sys c none ref arg) up

  module _ (sent : Pub → List (List ℕ)) (node_id : ℕ) where
    -- A sender can make the call, and its frame is below 2 ^ 16 bytes; traffic takes no packet back.
    abbrev pub IsOp : Op Pub → Type 0
    IsOp (call c) = IsSendable c × (length (frame node_id c) < 2 ^ 16)
    IsOp buffer = Unit {0}
    IsOp flush = Unit {0}
    IsOp unbuffer = Unit {0}
    IsOp (traffic change) =
        (p : Pub) → (sent (change p) ≡ sent p) × (rmc.pub_node_id (change p) ≡ rmc.pub_node_id p)

    abbrev pub AllOps : List (Op Pub) → Type 0
    AllOps [] = Unit {0}
    AllOps (op ∷ ops) = IsOp op × AllOps ops
