-- ===== src/Outbox/Delivery.antt =====
-- Two nodes and a whole run: what one sends by dstc.c's outbound functions, the other processes by
-- dstc_process_incoming.
use dstc.Base.{
  ℕ, ◌^◌, ◌<◌, ◌≡◌, refl, sym, ap, ◌∙◌, some, List, [], ◌∷◌, ◌++◌, map, length, take, take-append,
  Outcome, done, ◌>>=◌, >>=-cong, >>=-assoc, subst, if◌then◌else◌, ◌==◌,
}
use mathlib.Core.List.{flatten}
use dstc.Rmc.{Rmc, System}
use dstc.Context.{Context, pending}
use dstc.Symtab.Local.{find_server_function}
use dstc.Callbacks.{find_callback_by_ref}
use dstc.Queue.Frame.{Call, func, reply}
use dstc.Dispatch.{Invocation, invoke, process_packet}
use dstc.Dispatch.Deliver.{deliver}
use dstc.Dispatch.Incoming.{frames, AllSendable, deliver_all, process_packet-frames}
use dstc.Outbox.{QueueLaws, Outbox, Represents}
use dstc.Outbox.Runs.{Op, perform_all, AllOps}
use dstc.Outbox.Taken.{perform_all-taken}

AllSendable-left : (xs : List Call) (ys : List Call) → AllSendable (xs ++ ys) → AllSendable xs
AllSendable-left [] ys h = tt
AllSendable-left (x ∷ xs) ys h = (h.0, AllSendable-left xs ys h.1)

AllSendable-right : (xs : List Call) (ys : List Call) → AllSendable (xs ++ ys) → AllSendable ys
AllSendable-right [] ys h = h
AllSendable-right (x ∷ xs) ys h = AllSendable-right xs ys h.1

module _ {Pub Sub : Type 0} (app : Invocation → Context Pub Sub → Outcome (Context Pub Sub)) where
  -- A node processes packets one after the other.
  unfoldable pub receive : Context Pub Sub → List (List ℕ) → Outcome (Context Pub Sub)
  receive ctx [] = done ctx
  receive ctx (packet ∷ packets) = process_packet app ctx packet >>= λ ctx. receive ctx packets

  -- Calls that are made one after the other, each with its own argument and nothing behind it.
  unfoldable pub deliver_each : ℕ → Context Pub Sub → List Call → Outcome (Context Pub Sub)
  deliver_each node_id ctx [] = done ctx
  deliver_each node_id ctx (call ∷ calls) =
      deliver app node_id [] ctx call >>= λ ctx. deliver_each node_id ctx calls

  -- The application's functions read no further than the length that they are given.
  abbrev pub ReadsOwn : Type 0
  ReadsOwn =
      (inv : Invocation) (ctx : Context Pub Sub)
      → app inv ctx ≡ app (record inv { payload = take inv.payload_len inv.payload }) ctx

  module _ (reads_own : ReadsOwn) where
    app-own :
        (inv : Invocation) (ctx : Context Pub Sub) (arg rest : List ℕ)
        → inv.payload_len ≡ length arg
        → app (record inv { payload = arg ++ rest }) ctx ≡ app (record inv { payload = arg }) ctx
    app-own inv ctx arg rest size =
        reads_own (record inv { payload = arg ++ rest }) ctx
        ∙ ap (λ (bytes : List ℕ). app (record inv { payload = bytes }) ctx)
            (take-append arg rest inv.payload_len size)

    invoke-own :
        (inv : Invocation) (ctx : Context Pub Sub) (arg rest : List ℕ)
        → inv.payload_len ≡ length arg
        → invoke app (record inv { payload = arg ++ rest }) ctx
          ≡ invoke app (record inv { payload = arg ++ [] }) ctx
    unfolding invoke
    invoke-own inv ctx arg rest size =
        ap (λ (r : Outcome (Context Pub Sub)). if inv.func == 0 then done ctx else r)
          (app-own inv ctx arg rest size ∙ sym (app-own inv ctx arg [] size))

    deliver-own :
        (node_id : ℕ) (rest : List ℕ) (ctx : Context Pub Sub) (call : Call)
        → deliver app node_id rest ctx call ≡ deliver app node_id [] ctx call
    unfolding deliver
    deliver-own node_id rest ctx (func name arg) =
        invoke-own
          (record {
            func = find_server_function ctx name;
            callback_ref = 0;
            node_id = node_id;
            name = name;
            payload = [];
            payload_len = length arg;
          })
          ctx arg rest refl
    deliver-own node_id rest ctx (reply ref arg) =
        invoke-own
          (record {
            func = (find_callback_by_ref ctx ref).0;
            callback_ref = ref;
            node_id = node_id;
            name = [];
            payload = [];
            payload_len = length arg;
          })
          (find_callback_by_ref ctx ref).1 arg rest refl

    deliver_each-append :
        (node_id : ℕ) (ctx : Context Pub Sub) (xs ys : List Call)
        → deliver_each node_id ctx (xs ++ ys)
          ≡ (deliver_all app node_id ctx xs >>= λ ctx. deliver_each node_id ctx ys)
    unfolding deliver_each deliver_all
    deliver_each-append node_id ctx [] ys = refl
    deliver_each-append node_id ctx (x ∷ xs) ys =
        rw
          (
            deliver-own node_id (frames node_id xs) ctx x,
            >>=-assoc (deliver app node_id [] ctx x) (λ c. deliver_all app node_id c xs)
                (λ c. deliver_each node_id c ys),
          )
          (>>=-cong (deliver app node_id [] ctx x) _ _ λ c. deliver_each-append node_id c xs ys)

    receive-packets :
        (node_id : ℕ) (ctx : Context Pub Sub) (packets : List (List Call))
        → node_id < 2 ^ 32
        → AllSendable (flatten packets)
        → receive ctx (map (frames node_id) packets) ≡ deliver_each node_id ctx (flatten packets)
    unfolding receive deliver_each flatten
    receive-packets node_id ctx [] word ok = refl
    receive-packets node_id ctx (calls ∷ packets) word ok =
        rw
          (
            process_packet-frames app ctx node_id calls word
                (AllSendable-left calls (flatten packets) ok),
            deliver_each-append node_id ctx calls (flatten packets),
          )
          (>>=-cong (deliver_all app node_id ctx calls) _ _ λ c.
            receive-packets node_id c packets word (AllSendable-right calls (flatten packets) ok))

abbrev pub empty_outbox : Outbox
empty_outbox = record { packets = []; waiting = [] }

-- Exactly the calls that were accepted arrive. Let a node that is set up, with nothing pending and
-- nothing sent yet, RMC_MAX_PAYLOAD below 2^16 and an id below 2^32, make any sequence of calls
-- (each as a sender can make it, with a frame below 2^16 bytes), of changes of the buffering and of
-- flushes, while rmc suspends and resumes traffic as it likes, fails no packet unless it is
-- suspended, sends packets in order and keeps its id. Then the run returns, and the calls for which
-- the result was 0 are, in order, some that are gone and some whose frames are pending; and a node
-- that processes all packets that were sent, with functions that read no further than the length
-- they are given, makes the calls that are gone, in order, each once, and nothing else.
pub perform_all-delivered :
    {Pub Sub : Type 0} (rmc : Rmc Pub Sub) (sys : System) (sent : Pub → List (List ℕ)) (node_id : ℕ)
    (small : rmc.max_payload < 2 ^ 16) {Pub' Sub' : Type 0}
    (app : Invocation → Context Pub' Sub' → Outcome (Context Pub' Sub'))
    (receiver : Context Pub' Sub') (ctx : Context Pub Sub) (p : Pub) (ops : List (Op Pub))
    → QueueLaws rmc sent
    → ReadsOwn app
    → node_id < 2 ^ 32
    → Represents rmc sys sent small node_id ctx p empty_outbox
    → AllOps rmc sys sent node_id ops
    → (calls gone waiting : List Call) × (ctx' : Context Pub Sub) × (p' : Pub) × (perform_all rmc
          sys ctx ops
        ≡ done (calls, ctx'))
      × (calls ≡ gone ++ waiting)
      × (pending ctx' ≡ frames node_id waiting)
      × (ctx'.pub_ctx ≡ some p')
      × (receive app receiver (sent p') ≡ deliver_each app node_id receiver gone)
unfolding flatten
perform_all-delivered rmc sys sent node_id small app receiver ctx p ops laws reads word r ok =
    let (calls, ctx', p', o', went, r', same, all) =
      perform_all-taken rmc sys sent node_id small laws ctx p empty_outbox ops r ok in
    let gone = flatten o'.packets in
    let gone_ok = AllSendable-left gone o'.waiting (subst AllSendable (sym same) all) in
    (
      calls,
      gone,
      o'.waiting,
      ctx',
      p',
      went,
      sym same,
      r'.pending_frames,
      r'.up,
      ap (receive app receiver) r'.sent_frames
          ∙ receive-packets app reads node_id receiver o'.packets word gone_ok,
    )
