-- ===== src/Tests/OutboxExamples.antt =====
-- The theorems on outboxes, at concrete inputs.
use dstc.Base.{
  ℕ, ◌^◌, ◌<◌, ◌≡◌, refl, List, [], ◌∷◌, ◌++◌, replicate, some, arith, length, ◌==◌, if◌then◌else◌,
  done, ◌>>=◌,
}
use dstc.Wire.{header_bytes, le_bytes}
use dstc.Context.{Context, default_context, pending}
use dstc.Setup.{ebusy}
use dstc.Queue.{queue}
use dstc.Queue.Frame.{Call, func, frame, payload_bytes, call_name, call_ref, call_arg}
use dstc.Queue.Laws.{stored}
use dstc.Dispatch.Deliver.{IsSendable}
use dstc.Dispatch.Incoming.{frames}
use dstc.Outbox.{QueueLaws, Outbox, posted, taken, Represents}
use dstc.Outbox.Steps.{Represents-stored, queue-retry}
use dstc.Outbox.Runs.{Op, call, buffer, flush, unbuffer, traffic, perform_all, AllOps}
use dstc.Outbox.Delivery.{receive, deliver_each, empty_outbox, perform_all-delivered}
use dstc.Tests.Network.{TestPub, TestSub, test_rmc, test_sys, node_7, fresh, hi, counting}

-- A publisher of the test network keeps the last packet first.
abbrev pub in_order : List (List ℕ) → List (List ℕ)
in_order [] = []
in_order (p ∷ ps) = in_order ps ++ p ∷ []

abbrev pub sent : TestPub → List (List ℕ)
sent p = in_order p.packets

pub test_laws : QueueLaws test_rmc sent
test_laws = record {
  accepted = λ bytes p free. refl;
  sent-queue = λ bytes p ok. refl;
  node_id-queue = λ bytes p. refl;
}

pub fresh-empty : Represents test_rmc test_sys sent (omega arith) 7 fresh node_7 empty_outbox
unfolding default_context frames
fresh-empty = record {
  valid = omega arith;
  up = refl;
  own_id = refl;
  pending_frames = refl;
  sent_frames = refl;
}

abbrev long_call : Call
long_call = func hi (replicate 50 1)

abbrev hi_call : Call
hi_call = func hi (1 ∷ 2 ∷ [])

length-long_call : length (frame 7 long_call) ≡ 59
unfolding frame payload_bytes header_bytes le_bytes
length-long_call = refl

length-hi_call : length (frame 7 hi_call) ≡ 11
unfolding frame payload_bytes header_bytes le_bytes
length-hi_call = refl

-- Behind 59 pending bytes eleven more do not fit.
abbrev nearly_full : Context TestPub TestSub
nearly_full = stored fresh 7 long_call

nearly_full-posted :
    Represents test_rmc test_sys sent
      (omega arith)
      7
      nearly_full
      node_7
      (posted empty_outbox long_call)
nearly_full-posted =
    Represents-stored test_rmc test_sys sent (omega arith) test_laws 7 fresh node_7 empty_outbox
      long_call fresh-empty (unfold default_context in omega (arith, length-long_call))

queue-retry_example :
    (ctx' : Context TestPub TestSub) × (pub_ctx' : TestPub) × (o' : Outbox) × ((queue test_rmc
          test_sys nearly_full
          (call_name hi_call)
          (call_ref hi_call)
          (call_arg hi_call)
        >>= λ r.
            if r.0 == ebusy
            then queue test_rmc test_sys r.1
                (call_name hi_call)
                (call_ref hi_call)
                (call_arg hi_call)
            else done r)
      ≡ done (0, ctx'))
    × Represents test_rmc test_sys sent (omega arith) 7 ctx' pub_ctx' o'
    × (taken o' ≡ taken (posted empty_outbox long_call) ++ hi_call ∷ [])
queue-retry_example =
    queue-retry test_rmc test_sys sent (omega arith) test_laws 7 nearly_full node_7
      (posted empty_outbox long_call) hi_call nearly_full-posted
      ((λ e. cc), omega arith, omega arith) (omega (arith, length-hi_call)) refl

-- Calls with and without buffering, and while rmc is suspended in between.
abbrev some_ops : List (Op TestPub)
some_ops =
    call hi_call
    ∷ buffer
    ∷ call long_call
    ∷ call hi_call
    ∷ traffic (λ p. record p { suspended = 1 })
    ∷ flush
    ∷ call hi_call
    ∷ traffic (λ p. record p { suspended = 0 })
    ∷ unbuffer
    ∷ []

hi_ok : IsSendable hi_call × (length (frame 7 hi_call) < 2 ^ 16)
hi_ok = (((λ e. cc), omega arith, omega arith), omega (arith, length-hi_call))

long_ok : IsSendable long_call × (length (frame 7 long_call) < 2 ^ 16)
long_ok = (((λ e. cc), omega arith, omega arith), omega (arith, length-long_call))

some_ops-AllOps : AllOps test_rmc test_sys sent 7 some_ops
some_ops-AllOps = (
  hi_ok,
  (tt, (long_ok, (hi_ok, ((λ p. (refl, refl)), (tt, (hi_ok, ((λ p. (refl, refl)), (tt, tt)))))))),
)

perform_all-delivered_example :
    (calls gone waiting : List Call) × (ctx' : Context TestPub TestSub) × (p' : TestPub)
    × (perform_all test_rmc test_sys fresh some_ops ≡ done (calls, ctx'))
    × (calls ≡ gone ++ waiting)
    × (pending ctx' ≡ frames 7 waiting)
    × (ctx'.pub_ctx ≡ some p')
    × (receive counting fresh (sent p') ≡ deliver_each counting 7 fresh gone)
perform_all-delivered_example =
    perform_all-delivered test_rmc test_sys sent 7 (omega arith) counting fresh fresh node_7
      some_ops test_laws (λ inv ctx. refl) (omega arith) fresh-empty some_ops-AllOps
