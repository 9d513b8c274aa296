-- ===== src/Rpc/Server.antt =====
-- The receiver of a remote call: dstc_process_incoming of dstc.c and the function that DSTC_SERVER of
-- dstc.h makes.
use dstc.Base.{
  ℕ, ◌+◌, ◌*◌, ◌^◌, ◌<◌, ◌≡◌, ◌≢◌, sym, ap, ◌∙◌, arith, List, [], ◌∷◌, ◌++◌, map, length, take,
  append_assoc, append-nil, str_eq_refl, if_true, Outcome, done, >>=-done,
}
use dstc.Wire.Codec.{NoNul}
use dstc.Context.{Context}
use dstc.Context.Valid.{IsValid}
use dstc.Symtab.Local.{find_server_function, register_server_function}
use dstc.Symtab.Local.Laws.{find_server_function-register_server_function}
use dstc.Queue.Frame.{Call, func, frame}
use dstc.Dispatch.{Invocation, invoke, process_packet}
use dstc.Dispatch.Deliver.{IsSendable, deliver}
use dstc.Dispatch.Incoming.{frames, deliver_all, process_packet-frames}
use dstc.Args.{Arg, param, server_function, deserialize, size_arguments}
use dstc.Args.RoundTrip.{AllReadable, view, wires, dynamics, deserialize-wires}
use dstc.Rpc.Client.{argument_bytes, length-argument_bytes}

module _ {Pub Sub : Type 0} (app : Invocation → Context Pub Sub → Outcome (Context Pub Sub)) where
  pub invoke_live :
      (inv : Invocation) (ctx : Context Pub Sub) (f : ℕ)
      → inv.func ≡ f
      → f ≢ 0
      → invoke app inv ctx ≡ app inv ctx
  unfolding invoke
  invoke_live inv ctx f e live = ground arith

  -- A registered function behind DSTC_SERVER is called with arguments that name the client's bytes.
  deliver-server_function :
      (max_payload node_id f : ℕ) (before receiver : Context Pub Sub) (name : List ℕ)
      (args : List Arg) (stale : List ℕ)
      (body : List Arg → Context Pub Sub → Outcome (Context Pub Sub))
      → IsValid max_payload before
      → register_server_function before name f ≡ done receiver
      → f ≢ 0
      → AllReadable args
      → ((inv : Invocation) (c : Context Pub Sub)
          → inv.func ≡ f
          → app inv c ≡ server_function (map param args) body inv.payload c)
      → (args' : List Arg) × (deliver app node_id [] receiver
            (func name (argument_bytes args stale))
          ≡ body args' receiver)
        × (map view args' ≡ map view args)
  unfolding deliver invoke server_function
  deliver-server_function max_payload node_id f before receiver name args stale body v reg live ok
        runs =
      let rest = take (2 * dynamics args) stale in
      let (args', read, seen) = deserialize-wires args (rest ++ []) ok in
      let found : find_server_function receiver name ≡ f =
        find_server_function-register_server_function max_payload before name f name v reg
        ∙ if_true f (find_server_function before name) (str_eq_refl name) in
      let read' : deserialize (map param args) ((wires args ++ rest) ++ []) ≡ done args' =
        ap (deserialize (map param args)) (append_assoc (wires args) rest []) ∙ read in
      let arg = argument_bytes args stale in
      let inv : Invocation = record {
        func = find_server_function receiver name;
        callback_ref = 0;
        node_id = node_id;
        name = name;
        payload = arg ++ [];
        payload_len = length arg;
      } in
      (args', invoke_live inv receiver f found live ∙ runs inv receiver found ∙ rw read', seen)

  -- A packet that holds the client's call alone.
  pub process_packet-server_function :
      (max_payload node_id f : ℕ) (before receiver : Context Pub Sub) (name : List ℕ)
      (args : List Arg) (stale : List ℕ)
      (body : List Arg → Context Pub Sub → Outcome (Context Pub Sub))
      → IsValid max_payload before
      → register_server_function before name f ≡ done receiver
      → f ≢ 0
      → node_id < 2 ^ 32
      → name ≢ []
      → NoNul name
      → AllReadable args
      → 1 + length name + size_arguments args < 2 ^ 16
      → ((inv : Invocation) (c : Context Pub Sub)
          → inv.func ≡ f
          → app inv c ≡ server_function (map param args) body inv.payload c)
      → (args' : List Arg) × (process_packet app receiver
            (frame node_id (func name (argument_bytes args stale)))
          ≡ body args' receiver)
        × (map view args' ≡ map view args)
  unfolding frames deliver_all
  process_packet-server_function max_payload node_id f before receiver name args stale body v reg
        live word named clean ok small runs =
      let call : Call = func name (argument_bytes args stale) in
      let (args', called, seen) =
        deliver-server_function max_payload node_id f before receiver name args stale body v reg
          live ok runs in
      let sendable : IsSendable call =
        (named, clean, omega (arith, length-argument_bytes args stale ok)) in
      (
        args',
        ap (process_packet app receiver) (sym (append-nil (frame node_id call)))
            ∙ process_packet-frames app receiver node_id (call ∷ []) word (sendable, tt)
            ∙ >>=-done (deliver app node_id [] receiver call)
            ∙ called,
        seen,
      )
