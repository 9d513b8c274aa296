-- ===== src/Rpc.antt =====
-- A remote call from the client's function to the server's: the code of DSTC_CLIENT and DSTC_SERVER in
-- dstc.h on top of the outbound and the inbound side of dstc.c.
pub mod Client
pub mod Server
pub mod OneShot
pub mod Reply
use dstc.Base.{
  ℕ, ◌+◌, ◌*◌, ◌^◌, ◌≤◌, ◌<◌, ◌≡◌, ◌≢◌, refl, sym, ap, ◌∙◌, arith, true, List, [], ◌∷◌, ◌++◌, some,
  map, length, take, length-append, length-take, append_assoc, append-nil, str_eq, str_eq_refl,
  if◌then◌else◌, if_true, if_false, false, Outcome, done, ◌>>=◌, >>=-done,
}
use dstc.Rmc.{Rmc, System}
use dstc.Wire.Codec.{NoNul}
use dstc.Context.{Context, pending, lock_context, unlock_context}
use dstc.Context.Valid.{IsValid}
use dstc.Context.Sound.{lock_context-Sound}
use dstc.Setup.Laws.{pub_ctx-lock_context}
use dstc.Symtab.Local.{find_server_function, register_server_function}
use dstc.Symtab.Local.Laws.{find_server_function-register_server_function}
use dstc.Queue.{queue, queue_func, queue_pending_calls}
use dstc.Queue.Frame.{
  Call, func, frame, length-frame, length-payload_bytes-func, call_name, call_ref, call_arg,
}
use dstc.Queue.Laws.{
  stored, pending-stored, queue-collected, queue-stored, queue_pending_calls-sent,
}
use dstc.Dispatch.{Invocation, invoke, process_packet}
use dstc.Dispatch.Deliver.{IsSendable, deliver}
use dstc.Dispatch.Incoming.{frames, deliver_all, process_packet-frames}
use dstc.Args.{Arg, param, client_function, server_function, deserialize, size_arguments}
use dstc.Args.RoundTrip.{
  AllReadable, view, wires, dynamics, deserialize-wires, length-wires, fill_buffer_lem,
}
use dstc.Rpc.Client.{argument_bytes, client_function_lem, client_function-sent}
use dstc.Rpc.Server.{process_packet-server_function}

-- A node that is set up, does not collect calls and holds none, and whose rmc is not suspended and
-- takes every packet.
pub record IsReady {Pub Sub : Type 0} (rmc : Rmc Pub Sub) (ctx : Context Pub Sub) (pub_ctx : Pub)
    : Type 0 where
  pub valid : IsValid rmc.max_payload ctx
  pub up : ctx.pub_ctx ≡ some pub_ctx
  pub off : ctx.pub_is_buffering ≡ false
  pub empty : ctx.pub_buffer_ind ≡ 0
  pub free : rmc.pub_traffic_suspended pub_ctx ≡ 0
  pub takes : (bytes : List ℕ) → (rmc.pub_queue_packet bytes pub_ctx).0 ≡ 0
  pub small : rmc.max_payload < 2 ^ 16
  pub word : rmc.pub_node_id pub_ctx < 2 ^ 32

-- A remote call. On a valid node that is set up, collects calls and holds none yet, with
-- RMC_MAX_PAYLOAD below 2^16 and a node id below 2^32: a client function with a name that is not
-- empty and has no terminator inside, whose readable arguments fit the buffer, returns 0; and where
-- a valid node registered a function under this name, other than the null pointer, which
-- DSTC_SERVER made for the same types, the processing of the pending bytes calls the function
-- behind it once, with arguments that name the same bytes.
pub remote_call :
    {Pub Sub Pub' Sub' : Type 0} (rmc : Rmc Pub Sub) (sys : System) (ctx : Context Pub Sub)
    (pub_ctx : Pub) (name : List ℕ) (args : List Arg) (stale : List ℕ)
    (app : Invocation → Context Pub' Sub' → Outcome (Context Pub' Sub')) (max_payload f : ℕ)
    (before receiver : Context Pub' Sub')
    (body : List Arg → Context Pub' Sub' → Outcome (Context Pub' Sub'))
    → IsValid rmc.max_payload ctx
    → ctx.pub_ctx ≡ some pub_ctx
    → ctx.pub_is_buffering ≡ true
    → ctx.pub_buffer_ind ≡ 0
    → rmc.max_payload < 2 ^ 16
    → rmc.pub_node_id pub_ctx < 2 ^ 32
    → name ≢ []
    → NoNul name
    → AllReadable args
    → 7 + length name + size_arguments args ≤ rmc.max_payload
    → IsValid max_payload before
    → register_server_function before name f ≡ done receiver
    → f ≢ 0
    → ((inv : Invocation) (c : Context Pub' Sub')
        → inv.func ≡ f
        → app inv c ≡ server_function (map param args) body inv.payload c)
    → (ctx' : Context Pub Sub) × (args' : List Arg) × (client_function rmc sys ctx name args stale
        ≡ done (0, ctx'))
      × (process_packet app receiver (pending ctx') ≡ body args' receiver)
      × (map view args' ≡ map view args)
remote_call rmc sys ctx pub_ctx name args stale app max_payload f before receiver body v up on empty
      small word named clean ok room v' reg live runs =
    let node_id = rmc.pub_node_id pub_ctx in
    let (ctx', made, bytes) =
      client_function_lem rmc sys ctx pub_ctx name args stale v up on small named ok
        (omega arith) in
    let (args', called, seen) =
      process_packet-server_function app max_payload node_id f before receiver name args stale body
        v' reg live word named clean ok (omega arith) runs in
    (ctx', args', made, ap (process_packet app receiver) (bytes ∙ rw empty) ∙ called, seen)

-- A remote call from a node that does not collect calls, and whose rmc is not suspended and takes
-- every packet: rmc is handed one packet, and the buffer is empty again.
pub remote_call-sent :
    {Pub Sub Pub' Sub' : Type 0} (rmc : Rmc Pub Sub) (sys : System) (ctx : Context Pub Sub)
    (pub_ctx : Pub) (name : List ℕ) (args : List Arg) (stale : List ℕ)
    (app : Invocation → Context Pub' Sub' → Outcome (Context Pub' Sub')) (max_payload f : ℕ)
    (before receiver : Context Pub' Sub')
    (body : List Arg → Context Pub' Sub' → Outcome (Context Pub' Sub'))
    → IsValid rmc.max_payload ctx
    → ctx.pub_ctx ≡ some pub_ctx
    → ctx.pub_is_buffering ≡ false
    → ctx.pub_buffer_ind ≡ 0
    → rmc.pub_traffic_suspended pub_ctx ≡ 0
    → ((bytes : List ℕ) → (rmc.pub_queue_packet bytes pub_ctx).0 ≡ 0)
    → rmc.max_payload < 2 ^ 16
    → rmc.pub_node_id pub_ctx < 2 ^ 32
    → name ≢ []
    → NoNul name
    → AllReadable args
    → 7 + length name + size_arguments args ≤ rmc.max_payload
    → IsValid max_payload before
    → register_server_function before name f ≡ done receiver
    → f ≢ 0
    → ((inv : Invocation) (c : Context Pub' Sub')
        → inv.func ≡ f
        → app inv c ≡ server_function (map param args) body inv.payload c)
    → (ctx' : Context Pub Sub) × (packet : List ℕ) × (args' : List Arg) × (client_function rmc sys
          ctx name args stale
        ≡ done (0, ctx'))
      × (ctx'.pub_ctx ≡ some (rmc.pub_queue_packet packet pub_ctx).1)
      × (ctx'.pub_buffer_ind ≡ 0)
      × (process_packet app receiver packet ≡ body args' receiver)
      × (map view args' ≡ map view args)
remote_call-sent rmc sys ctx pub_ctx name args stale app max_payload f before receiver body v up off
      empty free takes small word named clean ok room v' reg live runs =
    let node_id = rmc.pub_node_id pub_ctx in
    let (ctx', made, gone, clear, _, _) =
      client_function-sent rmc sys ctx pub_ctx name args stale v up off empty free takes small named
        ok room in
    let (args', called, seen) =
      process_packet-server_function app max_payload node_id f before receiver name args stale body
        v' reg live word named clean ok (omega arith) runs in
    (
      ctx',
      frame node_id (func name (argument_bytes args stale)),
      args',
      made,
      gone,
      clear,
      called,
      seen,
    )
