-- ===== src/Examples/Elements/Exchange.antt =====
-- examples/callback_dyndata: the client asks for all elements, the server sends them to its callback.
use dstc.Base.{
  ℕ, ◌+◌, ◌*◌, ◌^◌, ◌≤◌, ◌<◌, ◌≡◌, ◌≢◌, refl, sym, ap, ◌∙◌, arith, List, [], ◌∷◌, ◌++◌, none, some,
  map, length, take, drop, take-append, take-append-drop, take-all, length-append, flatten-append,
  Outcome, done, ◌>>=◌,
}
use mathlib.Core.List.{flatten, reverse}
use dstc.Wire.{u16, le_bytes, le_value}
use dstc.Wire.Codec.{length-le_bytes, le_value-le_bytes}
use dstc.Rmc.{Rmc, System}
use dstc.Context.{Context}
use dstc.Context.Valid.{IsValid}
use dstc.Symtab.Local.{register_server_function}
use dstc.Callbacks.{find_ref, activate_callback, find_callback_by_ref}
use dstc.Callbacks.Laws.{find_callback_by_ref-activate_callback}
use dstc.Queue.Frame.{func, reply, frame}
use dstc.Dispatch.{Invocation, process_packet}
use dstc.Args.{
  Arg, dynamic, callback, fixed, callback_param, param, server_function, size_arguments,
  size_argument,
}
use dstc.Args.RoundTrip.{AllReadable, view}
use dstc.Rpc.{IsReady}
use dstc.Rpc.Client.{argument_bytes, length-argument_bytes, client_function-sent}
use dstc.Rpc.Server.{process_packet-server_function}
use dstc.Rpc.OneShot.{find_callback_by_ref-same}
use dstc.Rpc.Reply.{
  callback_function-sent, deliver-callback_function, process_packet-callback_function,
}
use dstc.Examples.Statics.{Statics}
use dstc.Examples.Elements.{
  Elements, elem_size, get_name, all_elements, callback_parameters, print_elements,
  get_all_elements_callback, get_all_elements, ask_elements,
}
use dstc.Examples.Elements.Add.{Stores}
use dstc.Examples.Elements.Print.{AllElements, length-flatten, print_elements-flatten}

callback_of_view :
    (args : List Arg) (ref : ℕ)
    → map view args ≡ map view (callback ref ∷ [])
    → args ≡ callback ref ∷ []
unfolding view
callback_of_view [] ref e = cc
callback_of_view (dynamic len memory ∷ args) ref e = cc
callback_of_view (fixed size memory ∷ args) ref e = cc
callback_of_view (callback r ∷ []) ref e = cc
callback_of_view (callback r ∷ a ∷ args) ref e = cc

stored_bytes :
    (s : Elements) (es : List (List ℕ))
    → Stores s es
    → AllElements es
    → take (u16 (elem_size * s.elem_index)) (flatten s.elems) ≡ flatten es
stored_bytes s es (rest, all, index, size) ok =
    let whole : u16 (elem_size * s.elem_index) ≡ length (flatten es) =
      omega (arith, length-flatten es ok) in
    ap (λ (xs : List (List ℕ)). take (u16 (elem_size * s.elem_index)) (flatten xs)) all
    ∙ ap (take (u16 (elem_size * s.elem_index))) (flatten-append es rest)
    ∙ take-append (flatten es) (flatten rest) (u16 (elem_size * s.elem_index)) whole

-- The callback prints the elements, if its arguments name the bytes that the server sent.
callback_of_elements :
    {C : Type 0} (print : List (List ℕ) → C → Outcome C) (args : List Arg) (c : C) (s : Elements)
    (es : List (List ℕ))
    → Stores s es
    → AllElements es
    → map view args ≡ map view (all_elements s)
    → get_all_elements_callback print args c ≡ print (reverse es) c
unfolding get_all_elements_callback view
callback_of_elements print [] c s es h ok e = cc
callback_of_elements print (callback r ∷ args) c s es h ok e = cc
callback_of_elements print (fixed size memory ∷ args) c s es h ok e = cc
callback_of_elements print (dynamic len memory ∷ []) c s es h ok e = cc
callback_of_elements print (dynamic len memory ∷ callback r ∷ args) c s es h ok e = cc
callback_of_elements print (dynamic len memory ∷ dynamic k m ∷ args) c s es h ok e = cc
callback_of_elements print (dynamic len memory ∷ fixed size count ∷ a ∷ args) c s es h ok e = cc
callback_of_elements print (dynamic len memory ∷ fixed size count ∷ []) c s es h ok e =
    let (rest, all, index, size_ok) = h in
    let sent_bytes : take len memory ≡ take (u16 (elem_size * s.elem_index)) (flatten s.elems) =
      cc in
    let sent_count : take size count ≡ take 4 (le_bytes 4 s.elem_index) = cc in
    let n : le_value (take size count) ≡ length es =
      ap le_value
        (sent_count ∙ take-all (le_bytes 4 s.elem_index) 4 (sym (length-le_bytes 4 s.elem_index)))
      ∙ le_value-le_bytes 4 s.elem_index (omega arith)
      ∙ index in
    let bytes : memory ≡ flatten es ++ drop len memory =
      sym (take-append-drop len memory)
      ∙ ap (λ (b : List ℕ). b ++ drop len memory) (sent_bytes ∙ stored_bytes s es h ok) in
    rw n (
      ap (λ (b : List ℕ). print_elements (length es) b >>= λ elems. print elems c) bytes
      ∙ rw (print_elements-flatten es (drop len memory) ok) refl)

all_elements-AllReadable :
    (s : Elements) (es : List (List ℕ))
    → Stores s es
    → AllElements es
    → AllReadable (all_elements s)
all_elements-AllReadable s es (rest, all, index, size) ok =
    let bytes : length (flatten s.elems) ≡ length (flatten es ++ flatten rest) =
      ap (λ (xs : List (List ℕ)). length (flatten xs)) all ∙ ap length (flatten-append es rest) in
    (
      (
        omega (arith, bytes, length-append (flatten es) (flatten rest), length-flatten es ok),
        omega arith,
      ),
      (omega (arith, length-le_bytes 4 s.elem_index), tt),
    )

size_arguments-all_elements :
    (s : Elements) (es : List (List ℕ))
    → Stores s es
    → size_arguments (all_elements s) ≡ 8 + elem_size * length es
unfolding size_arguments size_argument
size_arguments-all_elements s es (rest, all, index, size) = omega arith

-- A call with a callback, and the answer to it, in examples/callback_dyndata. On two nodes that are
-- ready, each set up and valid, with nothing pending, not collecting calls, with an rmc that is not
-- suspended and takes every packet, and a RMC_MAX_PAYLOAD below 2^16 and large enough; where no
-- slot of the client has the callback's reference, and the server's get_all_elements is registered
-- and its array holds some elements of 68 bytes: the client's request activates the callback,
-- returns 0 and hands rmc one packet; the server processes it and hands rmc one packet; and the
-- client processes that by printing the elements, from the last to the first and as they are on the
-- server, with the callback taken out of its table.
pub get_all_elements-printed :
    {Pub Sub Pub' Sub' : Type 0} (rmc : Rmc Pub Sub) (sys : System) (rmc' : Rmc Pub' Sub')
    (sys' : System) (client client' : Context Pub Sub) (p : Pub) (function dispatch : ℕ)
    (print : List (List ℕ) → Context Pub Sub → Outcome (Context Pub Sub))
    (client_app : Invocation → Context Pub Sub → Outcome (Context Pub Sub))
    (before server : Context Pub' Sub') (p' : Pub') (f : ℕ) (es : List (List ℕ)) (stale : List ℕ)
    (statics : Statics (Context Pub' Sub') Elements)
    (server_app : Invocation → Context Pub' Sub' → Outcome (Context Pub' Sub'))
    → IsValid rmc.max_payload client
    → function ≢ 0
    → function < 2 ^ 64
    → dispatch ≢ 0
    → find_ref client.local_callback function 0 client.callback_ind ≡ none
    → activate_callback client function dispatch ≡ done (function, client')
    → IsReady rmc client' p
    → 31 ≤ rmc.max_payload
    → ((inv : Invocation) (c : Context Pub Sub)
        → inv.func ≡ dispatch
        → client_app inv c
          ≡ server_function callback_parameters (get_all_elements_callback print) inv.payload c)
    → IsValid rmc'.max_payload before
    → register_server_function before get_name f ≡ done server
    → f ≢ 0
    → IsReady rmc' server p'
    → Stores (statics.read server) es
    → AllElements es
    → 23 + elem_size * length es ≤ rmc'.max_payload
    → ((inv : Invocation) (c : Context Pub' Sub')
        → inv.func ≡ f
        → server_app inv c
          ≡ server_function
              (callback_param ∷ [])
              (get_all_elements rmc' sys' statics stale)
              inv.payload
              c)
    → (asked : Context Pub Sub) × (served : Context Pub' Sub') × (question answer : List ℕ)
      × (ask_elements rmc sys client function dispatch ≡ done (0, asked))
      × (asked.pub_ctx ≡ some (rmc.pub_queue_packet question p).1)
      × (process_packet server_app server question ≡ done served)
      × (served.pub_ctx ≡ some (rmc'.pub_queue_packet answer p').1)
      × (process_packet client_app asked answer
          ≡ print (reverse es) (find_callback_by_ref asked function).1)
unfolding ask_elements get_all_elements param size_arguments size_argument
get_all_elements-printed rmc sys rmc' sys' client client' p function dispatch print client_app
      before server p' f es stale statics server_app valid named ref_word live none_yet active ready
      room client_runs valid' reg live' ready' stores ok room' server_runs =
    let args : List Arg = callback function ∷ [] in
    let s = statics.read server in
    let node_id = rmc.pub_node_id p in
    let node_id' = rmc'.pub_node_id p' in
    let size = size_arguments-all_elements s es stores in
    let readable = all_elements-AllReadable s es stores ok in
    let (asked, made, gone, clear, table, ind) =
      client_function-sent rmc sys client' p get_name args [] ready.valid ready.up ready.off
        ready.empty ready.free ready.takes ready.small (λ e. cc) (ref_word, tt) (omega arith) in
    let (args', called, seen) =
      process_packet-server_function server_app rmc'.max_payload node_id f before server get_name
        args [] (get_all_elements rmc' sys' statics stale) valid' reg live' ready.word (λ e. cc)
        (omega arith) (ref_word, tt) (omega arith) server_runs in
    let (served, replied, gone', clear') =
      callback_function-sent rmc' sys' server p' function (all_elements s) stale ready'.valid
        ready'.up ready'.off ready'.empty ready'.free ready'.takes ready'.small named readable
        (omega (arith, size)) in
    let found : (find_callback_by_ref asked function).0 ≡ dispatch =
      find_callback_by_ref-same asked client' function table ind
      ∙ (find_callback_by_ref-activate_callback rmc.max_payload client function dispatch valid live
          named none_yet active).0 in
    let (shown, printed, same) =
      deliver-callback_function client_app node_id' function dispatch asked (all_elements s) stale
        (get_all_elements_callback print) live found readable client_runs in
    let short : 9 + length (argument_bytes (all_elements s) stale) < 2 ^ 16 =
      omega (arith, size, length-argument_bytes (all_elements s) stale readable, ready'.small) in
    (
      asked,
      served,
      frame node_id (func get_name (argument_bytes args [])),
      frame node_id' (reply function (argument_bytes (all_elements s) stale)),
      rw (active, made),
      gone,
      called ∙ rw (callback_of_view args' function seen, replied),
      gone',
      process_packet-callback_function client_app node_id' function
            (argument_bytes (all_elements s) stale) asked ready'.word named ref_word short
          ∙ printed
          ∙ callback_of_elements print shown (find_callback_by_ref asked function).1 s es stores ok
              same,
    )
