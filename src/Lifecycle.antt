-- ===== src/Lifecycle.antt =====
-- The life of a process: the functions of the API of dstc.c that it calls and the callbacks that rmc
-- makes, in any order, from `_dstc_default_context` on.
pub mod Sound
pub mod Loop
use dstc.Base.{ℕ, List, [], ◌∷◌, Option, Outcome, done, ◌>>=◌}
use dstc.Rmc.{Rmc, System}
use dstc.Context.{Context}
use dstc.Setup.{SetupArgs, setup, setup2, setup_epoll}
use dstc.Symtab.Remote.{subscriber_control_message_cb, subscriber_disconnect_cb}
use dstc.Symtab.Local.{
  register_server_function, register_client_function, register_callback_client,
  subscription_complete, remote_function_available,
}
use dstc.Callbacks.{activate_callback, register_callback_server, cancel_callback}
use dstc.Queue.{
  queue_callback, queue_func, get_node_id, get_socket_count, buffer_client_calls,
  flush_client_calls, unbuffer_client_calls,
}
use dstc.Dispatch.{Invocation, process_incoming}

-- What a program can ask for. A name, a function and a reference are arguments as in C.
pub data Request : Type 0 where
  set_up : Request
  set_up_with : SetupArgs → Request
  set_up_epoll : Option ℕ → Request
  register_server : List ℕ → ℕ → Request
  register_client : List ℕ → ℕ → Request
  register_client_callback : Request
  register_server_callback : ℕ → ℕ → Request
  activate : ℕ → ℕ → Request
  cancel : ℕ → Request
  call_function : List ℕ → List ℕ → Request
  call_callback : ℕ → List ℕ → Request
  buffer : Request
  flush : Request
  unbuffer : Request
  ask_available : ℕ → Request
  ask_node_id : Request
  ask_socket_count : Request

-- What rmc tells a process. The number at `packets` bounds how many packets are ready.
pub data Event : Type 0 where
  request : Request → Event
  packets : ℕ → Event
  control_message : List ℕ → Event
  subscribed : ℕ → Event
  disconnected : Event

module _ {Pub Sub : Type 0} (rmc : Rmc Pub Sub) (sys : System) where
  abbrev context_of : {A : Type 0} → Outcome (A × Context Pub Sub) → Outcome (Context Pub Sub)
  context_of m = m >>= λ r. done r.1

  unfoldable pub serve : Context Pub Sub → Request → Outcome (Context Pub Sub)
  serve ctx set_up = context_of (setup rmc sys ctx)
  serve ctx (set_up_with args) = context_of (setup2 rmc sys ctx args)
  serve ctx (set_up_epoll fd) = context_of (setup_epoll rmc sys ctx fd)
  serve ctx (register_server name func) = register_server_function ctx name func
  serve ctx (register_client name func) = register_client_function ctx name func
  serve ctx register_client_callback = done (register_callback_client ctx)
  serve ctx (register_server_callback ref func) = register_callback_server ctx ref func
  serve ctx (activate ref func) = context_of (activate_callback ctx ref func)
  serve ctx (cancel func) = context_of (cancel_callback rmc sys ctx func)
  serve ctx (call_function name arg) = context_of (queue_func rmc sys ctx name arg)
  serve ctx (call_callback ref arg) = context_of (queue_callback rmc sys ctx ref arg)
  serve ctx buffer = context_of (buffer_client_calls rmc sys ctx)
  serve ctx flush = context_of (flush_client_calls rmc sys ctx)
  serve ctx unbuffer = context_of (unbuffer_client_calls rmc sys ctx)
  serve ctx (ask_available func) = context_of (remote_function_available rmc sys ctx func)
  serve ctx ask_node_id = context_of (get_node_id rmc sys ctx)
  serve ctx ask_socket_count = context_of (get_socket_count rmc sys ctx)

  unfoldable pub serve_all : Context Pub Sub → List Request → Outcome (Context Pub Sub)
  serve_all ctx [] = done ctx
  serve_all ctx (r ∷ rs) = serve ctx r >>= λ ctx. serve_all ctx rs

  -- Server functions and callbacks that make calls of the API.
  unfoldable pub scripted :
      (Invocation → List Request) → Invocation → Context Pub Sub → Outcome (Context Pub Sub)
  scripted script inv ctx = serve_all ctx (script inv)

  module _ (app : Invocation → Context Pub Sub → Outcome (Context Pub Sub)) where
    unfoldable pub react : Context Pub Sub → Event → Outcome (Context Pub Sub)
    react ctx (request r) = serve ctx r
    react ctx (packets bound) = process_incoming app rmc bound ctx
    react ctx (control_message payload) = subscriber_control_message_cb ctx payload
    react ctx (subscribed node_id) = subscription_complete rmc ctx node_id
    react ctx disconnected = subscriber_disconnect_cb rmc ctx

    unfoldable pub live : Context Pub Sub → List Event → Outcome (Context Pub Sub)
    live ctx [] = done ctx
    live ctx (e ∷ es) = react ctx e >>= λ ctx. live ctx es
