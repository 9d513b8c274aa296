-- ===== src/Examples/Threads/Integrity.antt =====
-- examples/thread_stress: what the server's checks find on the calls of the client's four threads.
use dstc.Base.{
  ℕ, ◌+◌, ◌^◌, ◌<◌, ◌≡◌, ◌≢◌, sym, ap, ◌∙◌, subst, arith, List, [], map, length, some, Outcome,
  done,
}
use mathlib.Core.List.{flatten}
use dstc.Rmc.{Rmc, System}
use dstc.Timeout.{minus_one}
use dstc.Context.{Context, pending}
use dstc.Symtab.Local.{find_server_function}
use dstc.Queue.Frame.{Call}
use dstc.Dispatch.{Invocation}
use dstc.Dispatch.Incoming.{frames}
use dstc.Outbox.{QueueLaws, HasTaken}
use dstc.Outbox.Waits.{Took}
use dstc.Outbox.Delivery.{receive}
use dstc.Examples.Statics.{Statics}
use dstc.Epoll.{Os, Io}
use dstc.Epoll.Sound.{IoKeeps}
use dstc.Examples.Threads.{Thread, ClientThreads, start_threads, run_threads}
use dstc.Examples.Threads.Turns.{values_of, values_of-append, in_a_row-cut}
use dstc.Examples.Threads.Client.{IsThread, AllThreads, AllNumbers, thread_call, run_threads-start}
use dstc.Examples.Threads.Server.{last_of, server_values-in_a_row}
use dstc.Examples.Threads.Delivery.{map-cut, AllNumbers-left, IsServer, Runs, receive-thread_calls}

zero-add_lem : (n : ℕ) → 0 + n ≡ n
zero-add_lem n = omega arith

-- No number is lost, doubled or out of its thread's order in examples/thread_stress. On a context
-- that stands for an empty outbox, with RMC_MAX_PAYLOAD below 2^16 and an id below 2^32, where rmc
-- fails no packet unless it is suspended, sends packets in order and keeps its id, and where the
-- calls of rmc from inside of dstc_process_events, with the callbacks they make, neither take a
-- call back nor add one: after turns of the client's threads 1 to 4, in any order, if they return,
-- with any clock and epoll_wait, a node on which set_value1 to set_value4 are registered, with
-- their variables as at the start, processes all packets that were sent without an integrity
-- failure, and then last_value of each function is the last of as many numbers of its thread from 0
-- on as were sent and do not wait in the client's buffer.
pub run_threads-integrity :
    {Pub Sub W Pub' Sub' W' : Type 0} (rmc : Rmc Pub Sub) (sys : System) (io : Io (Context Pub Sub))
    (os : Os W) (retries : ℕ) (sent : Pub → List (List ℕ)) (node_id : ℕ)
    (small : rmc.max_payload < 2 ^ 16) (laws : QueueLaws rmc sent)
    (keeps : (calls : List Call) → IoKeeps (Took rmc sys sent node_id small laws calls) io)
    (rmc' : Rmc Pub' Sub') (sys' : System) (io' : Io (Context Pub' Sub')) (os' : Os W')
    (world : Statics (Context Pub' Sub') W') (retries' rounds : ℕ)
    (app : Invocation → Context Pub' Sub' → Outcome (Context Pub' Sub'))
    (statics : Statics (Context Pub' Sub') (ℕ → Thread)) (f : ℕ → ℕ) (receiver : Context Pub' Sub')
    (ctx : Context Pub Sub) (w : W) (inds : List ℕ) {s : ClientThreads Pub Sub W}
    → node_id < 2 ^ 32
    → HasTaken rmc sys sent small node_id [] ctx
    → AllThreads inds
    → ((i : ℕ) → IsThread i → f i ≢ 0)
    → Runs rmc' sys' io' os' world retries' rounds app statics f
    → ((t : ℕ → Thread) (c : Context Pub' Sub') (name : List ℕ)
        → find_server_function (statics.write t c) name ≡ find_server_function c name)
    → IsServer rmc' sys' io' os' world retries' rounds app statics f receiver
    → ((i : ℕ) → (statics.read receiver i).last_value ≡ minus_one)
    → run_threads rmc sys io os retries (start_threads ctx w) inds ≡ done s
    → (waiting : List (ℕ × ℕ)) × (p : Pub) × (receiver' : Context Pub' Sub') × (s.ctx.pub_ctx
        ≡ some p)
      × (pending s.ctx ≡ frames node_id (map thread_call waiting))
      × (receive app receiver (sent p) ≡ done receiver')
      × ((i : ℕ)
          → (k : ℕ) × (k + length (values_of i waiting) ≡ s.val i)
            × ((statics.read receiver' i).last_value ≡ last_of k))
run_threads-integrity rmc sys io os retries sent node_id small laws keeps rmc' sys' io' os' world
      retries' rounds app statics f receiver ctx w inds {s = s} word none_yet threads live runs
      finds server start went =
    let (calls, ((p, o, r, took), rows, limit, ok)) =
      run_threads-start rmc sys io os retries sent node_id small laws keeps ctx w inds {s = s}
        threads none_yet went in
    let (gone, waiting, cut, sent_calls, later) =
      map-cut calls (flatten o.packets) o.waiting took in
    let parts = λ (i : ℕ).
      in_a_row-cut 0 (s.val i) (values_of i gone) (values_of i waiting)
        (sym (values_of-append i gone waiting) ∙ ap (values_of i) (sym cut) ∙ rows i) in
    let (threads', checked, ends) =
      server_values-in_a_row (statics.read receiver) gone (λ i. 0) (λ i. length (values_of i gone))
        start (λ i. (parts i).0) (λ i. omega (arith, (parts i).1, limit i)) in
    let (receiver', received, same) =
      receive-thread_calls rmc' sys' io' os' world retries' rounds app statics f live runs finds
        node_id receiver o.packets gone word server
        (AllNumbers-left gone waiting (subst AllNumbers cut ok)) sent_calls checked in
    (
      waiting,
      p,
      receiver',
      r.up,
      r.pending_frames ∙ ap (frames node_id) later,
      ap (receive app receiver) r.sent_frames ∙ received,
      λ i. (
        length (values_of i gone),
        (parts i).1,
        ap (λ (t : ℕ → Thread). (t i).last_value) same
            ∙ ends i
            ∙ ap last_of (zero-add_lem (length (values_of i gone))),
      ),
    )
