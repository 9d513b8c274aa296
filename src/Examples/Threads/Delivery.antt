-- ===== src/Examples/Threads/Delivery.antt =====
-- examples/thread_stress as a whole: the four threads of the client, its context, the packets, and the
-- functions of the server that processes them.
use dstc.Base.{
  ℕ, ◌^◌, ◌<◌, ◌≡◌, ◌≢◌, refl, ap, subst, ◌∙◌, arith, List, [], ◌∷◌, ◌++◌, map, length, Outcome,
  done, >>=-eq-done, false, ◌==◌,
}
use mathlib.Core.List.{flatten}
use dstc.Wire.{le_bytes}
use dstc.Wire.Codec.{le_value-le_bytes}
use dstc.Context.{Context}
use dstc.Symtab.Local.{find_server_function}
use dstc.Queue.Frame.{Call}
use dstc.Dispatch.{Invocation, process_packet}
use dstc.Dispatch.Deliver.{deliver}
use dstc.Dispatch.Incoming.{frames, AllSendable, deliver_all, process_packet-frames}
use dstc.Args.{
  Param, fixed, fixed_param, deserialize, deserialize_argument, read_bytes, server_function,
}
use dstc.Outbox.Delivery.{receive}
use dstc.Rpc.Server.{invoke_live}
use dstc.Examples.Statics.{Statics}
use dstc.Rmc.{Rmc, System}
use dstc.Timeout.{minus_one}
use dstc.Epoll.{Os, Io}
use dstc.Examples.Threads.{
  Thread, server_value, server_values, thread_name, set_value_of, thread_set_value,
}
use dstc.Examples.Threads.Client.{IsThread, AllNumbers, thread_call, thread_call-IsSendable}

-- A list of images that is cut in two is the images of a list cut in two.
pub map-cut :
    (xs : List (ℕ × ℕ)) (ys zs : List Call)
    → ys ++ zs ≡ map thread_call xs
    → (front back : List (ℕ × ℕ)) × (xs ≡ front ++ back)
      × (ys ≡ map thread_call front)
      × (zs ≡ map thread_call back)
map-cut xs [] zs e = ([], xs, refl, refl, e)
map-cut [] (y ∷ ys) zs e = cc
map-cut (x ∷ xs) (y ∷ ys) zs e =
    let (front, back, cut, same, rest) = map-cut xs ys zs (cc) in
    (x ∷ front, back, ap (◌∷◌ x) cut, cc, rest)

server_values-append :
    (threads : ℕ → Thread) (front back : List (ℕ × ℕ)) {threads' : ℕ → Thread}
    → server_values threads (front ++ back) ≡ done threads'
    → (between : ℕ → Thread) × (server_values threads front ≡ done between)
      × (server_values between back ≡ done threads')
unfolding server_values
server_values-append threads [] back e = (threads, refl, e)
server_values-append threads ((ind, v) ∷ front) back e =
    let (next, first, rest) = >>=-eq-done (server_value threads ind v) _ e in
    let (between, before, after) = server_values-append next front back rest in
    (between, rw first before, after)

pub AllNumbers-left : (xs ys : List (ℕ × ℕ)) → AllNumbers (xs ++ ys) → AllNumbers xs
AllNumbers-left [] ys h = tt
AllNumbers-left (x ∷ xs) ys h = (h.0, AllNumbers-left xs ys h.1)

AllNumbers-right : (xs ys : List (ℕ × ℕ)) → AllNumbers (xs ++ ys) → AllNumbers ys
AllNumbers-right [] ys h = h
AllNumbers-right (x ∷ xs) ys h = AllNumbers-right xs ys h.1

AllSendable-thread_calls : (calls : List (ℕ × ℕ)) → AllSendable (map thread_call calls)
AllSendable-thread_calls [] = tt
AllSendable-thread_calls ((ind, v) ∷ calls) =
    (thread_call-IsSendable ind v, AllSendable-thread_calls calls)

abbrev pub value_params : List Param
value_params = fixed_param 4 ∷ []

deserialize-value :
    (v : ℕ) (rest : List ℕ)
    → deserialize value_params (le_bytes 4 v ++ rest) ≡ done (fixed 4 (le_bytes 4 v) ∷ [])
unfolding deserialize deserialize_argument read_bytes le_bytes
deserialize-value v rest = ground arith

module _ {Pub Sub W : Type 0} (rmc : Rmc Pub Sub) (sys : System) (io : Io (Context Pub Sub))
    (os : Os W) (world : Statics (Context Pub Sub) W) (retries rounds : ℕ)
    (app : Invocation → Context Pub Sub → Outcome (Context Pub Sub))
    (statics : Statics (Context Pub Sub) (ℕ → Thread)) (f : ℕ → ℕ) where
  -- A node on which the four functions are registered.
  abbrev pub IsServer : Context Pub Sub → Type 0
  IsServer ctx = (i : ℕ) → IsThread i → find_server_function ctx (thread_name i) ≡ f i

  -- What the node calls for them is what DSTC_SERVER makes of `set_value1` to `set_value4`.
  abbrev pub Runs : Type 0
  Runs =
      (i : ℕ) (inv : Invocation) (c : Context Pub Sub)
      → IsThread i
      → inv.func ≡ f i
      → app inv c
        ≡ server_function value_params (set_value_of rmc sys io os world retries rounds statics i)
            inv.payload c

  module _ (live : (i : ℕ) → IsThread i → f i ≢ 0) (runs : Runs)
      (keeps : (t : ℕ → Thread) (c : Context Pub Sub) (name : List ℕ)
        → find_server_function (statics.write t c) name ≡ find_server_function c name) where
    deliver-thread_call :
        (node_id : ℕ) (rest : List ℕ) (ctx : Context Pub Sub) (ind v : ℕ) {t : ℕ → Thread}
        → IsServer ctx
        → IsThread ind
        → v < 1000000
        → server_value (statics.read ctx) ind v ≡ done t
        → deliver app node_id rest ctx (thread_call (ind, v)) ≡ done (statics.write t ctx)
    unfolding deliver server_function set_value_of thread_set_value
    deliver-thread_call node_id rest ctx ind v server thread below went =
        let inv : Invocation = record {
          func = find_server_function ctx (thread_name ind);
          callback_ref = 0;
          node_id = node_id;
          name = thread_name ind;
          payload = le_bytes 4 v ++ rest;
          payload_len = length (le_bytes 4 v);
        } in
        let plain : (v == minus_one) ≡ false = ground arith in
        invoke_live app inv ctx (f ind) (server ind thread) (live ind thread)
        ∙ runs ind inv ctx thread (server ind thread)
        ∙ rw (deserialize-value v rest, le_value-le_bytes 4 v (omega arith), plain, went)

    deliver_all-thread_calls :
        (node_id : ℕ) (ctx : Context Pub Sub) (calls : List (ℕ × ℕ)) {t : ℕ → Thread}
        → IsServer ctx
        → AllNumbers calls
        → server_values (statics.read ctx) calls ≡ done t
        → (ctx' : Context Pub Sub) × (deliver_all app node_id ctx (map thread_call calls)
            ≡ done ctx')
          × (statics.read ctx' ≡ t)
          × IsServer ctx'
    unfolding deliver_all server_values
    deliver_all-thread_calls node_id ctx [] server ok went = (ctx, refl, cc, server)
    deliver_all-thread_calls node_id ctx ((ind, v) ∷ calls) server ok went =
        let (next, first, rest) = >>=-eq-done (server_value (statics.read ctx) ind v) _ went in
        let (ctx', made, same, server') =
          deliver_all-thread_calls node_id (statics.write next ctx) calls
            (λ i thread. keeps next ctx (thread_name i) ∙ server i thread) ok.1
            (rw (statics.read-write next ctx) rest) in
        (
          ctx',
          rw (deliver-thread_call node_id _ ctx ind v server ok.0.0 ok.0.1 first) made,
          same,
          server',
        )

    pub receive-thread_calls :
        (node_id : ℕ) (ctx : Context Pub Sub) (packets : List (List Call)) (calls : List (ℕ × ℕ))
        {t : ℕ → Thread}
        → node_id < 2 ^ 32
        → IsServer ctx
        → AllNumbers calls
        → flatten packets ≡ map thread_call calls
        → server_values (statics.read ctx) calls ≡ done t
        → (ctx' : Context Pub Sub) × (receive app ctx (map (frames node_id) packets) ≡ done ctx')
          × (statics.read ctx' ≡ t)
    unfolding receive flatten server_values
    receive-thread_calls node_id ctx [] [] word server ok all went = (ctx, refl, cc)
    receive-thread_calls node_id ctx [] (c ∷ calls) word server ok all went = cc
    receive-thread_calls node_id ctx (packet ∷ packets) calls word server ok all went =
        let (front, back, cut, same, later) = map-cut calls packet (flatten packets) all in
        let ok' : AllNumbers (front ++ back) = subst AllNumbers cut ok in
        let (between, before, after) =
          server_values-append (statics.read ctx) front back (rw cut at went) in
        let (ctx1, made, now, server1) =
          deliver_all-thread_calls node_id ctx front server (AllNumbers-left front back ok')
            before in
        let (ctx2, rest, final) =
          receive-thread_calls node_id ctx1 packets back word server1
            (AllNumbers-right front back ok') later (rw now after) in
        let processed : process_packet app ctx (frames node_id packet) ≡ done ctx1 =
          ap (λ (cs : List Call). process_packet app ctx (frames node_id cs)) same
          ∙ process_packet-frames app ctx node_id (map thread_call front) word
              (AllSendable-thread_calls front)
          ∙ made in
        (ctx2, rw processed rest, final)
