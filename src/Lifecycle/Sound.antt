-- ===== src/Lifecycle/Sound.antt =====
-- The life of a process and the soundness of its context: dstc.c as a whole.
use dstc.Base.{ℕ, ◌^◌, ◌<◌, ◌≡◌, refl, List, [], ◌∷◌, Outcome, done, Holds->>=, Holds-elim}
use dstc.Rmc.{Rmc, System}
use dstc.Context.{Context, default_context}
use dstc.Context.Valid.{IsValid, default_context-IsValid}
use dstc.Context.Sound.{Sound, Keeps, Keeps-forget}
use dstc.Setup.Sound.{setup-KeepsWith, setup2-KeepsWith, setup_epoll-KeepsWith}
use dstc.Symtab.Sound.{
  register_server_function-Keeps, register_client_function-Keeps, register_callback_client-Sound,
  subscriber_control_message_cb-Keeps, subscriber_disconnect_cb-Keeps, subscription_complete-Keeps,
  remote_function_available-KeepsWith,
}
use dstc.Callbacks.Sound.{
  activate_callback-KeepsWith, register_callback_server-Keeps, cancel_callback-KeepsWith,
}
use dstc.Queue.Sound.{
  queue_callback-KeepsWith, queue_func-KeepsWith, get_node_id-KeepsWith, get_socket_count-KeepsWith,
  buffer_client_calls-KeepsWith, flush_client_calls-KeepsWith, unbuffer_client_calls-KeepsWith,
}
use dstc.Dispatch.{Invocation}
use dstc.Dispatch.Sound.{AppKeeps, process_incoming-Keeps}
use dstc.Lifecycle.{
  Request, Event, set_up, set_up_with, set_up_epoll, register_server, register_client,
  register_client_callback, register_server_callback, activate, cancel, call_function,
  call_callback, buffer, flush, unbuffer, ask_available, ask_node_id, ask_socket_count, request,
  packets, control_message, subscribed, disconnected, serve, serve_all, scripted, react, live,
}

module _ {Pub Sub : Type 0} (rmc : Rmc Pub Sub) (sys : System)
    (small : rmc.max_payload < 2 ^ 32) where
  serve-Keeps :
      (n : ℕ) (ctx : Context Pub Sub) (r : Request)
      → Sound rmc.max_payload n ctx
      → Keeps rmc.max_payload n (serve rmc sys ctx r)
  unfolding serve
  serve-Keeps n ctx set_up h =
      Keeps-forget {0} rmc.max_payload n _ (setup-KeepsWith rmc sys n ctx h)
  serve-Keeps n ctx (set_up_with args) h =
      Keeps-forget {0} rmc.max_payload n _ (setup2-KeepsWith rmc sys n ctx args h)
  serve-Keeps n ctx (set_up_epoll fd) h =
      Keeps-forget {0} rmc.max_payload n _ (setup_epoll-KeepsWith rmc sys n ctx fd h)
  serve-Keeps n ctx (register_server name func) h =
      register_server_function-Keeps rmc.max_payload n ctx name func h
  serve-Keeps n ctx (register_client name func) h =
      register_client_function-Keeps rmc.max_payload n ctx name func h
  serve-Keeps n ctx register_client_callback h =
      register_callback_client-Sound rmc.max_payload n ctx h
  serve-Keeps n ctx (register_server_callback ref func) h =
      register_callback_server-Keeps rmc.max_payload n ctx ref func h
  serve-Keeps n ctx (activate ref func) h =
      Keeps-forget {0} rmc.max_payload n _
        (activate_callback-KeepsWith rmc.max_payload n ctx ref func h)
  serve-Keeps n ctx (cancel func) h =
      Keeps-forget {0} rmc.max_payload n _ (cancel_callback-KeepsWith rmc sys n ctx func h)
  serve-Keeps n ctx (call_function name arg) h =
      Keeps-forget {0} rmc.max_payload n _ (queue_func-KeepsWith rmc sys small n ctx name arg h)
  serve-Keeps n ctx (call_callback ref arg) h =
      Keeps-forget {0} rmc.max_payload n _ (queue_callback-KeepsWith rmc sys small n ctx ref arg h)
  serve-Keeps n ctx buffer h =
      Keeps-forget {0} rmc.max_payload n _ (buffer_client_calls-KeepsWith rmc sys n ctx h)
  serve-Keeps n ctx flush h =
      Keeps-forget {0} rmc.max_payload n _ (flush_client_calls-KeepsWith rmc sys n ctx h)
  serve-Keeps n ctx unbuffer h =
      Keeps-forget {0} rmc.max_payload n _ (unbuffer_client_calls-KeepsWith rmc sys n ctx h)
  serve-Keeps n ctx (ask_available func) h =
      Keeps-forget {0} rmc.max_payload n _
        (remote_function_available-KeepsWith rmc sys n ctx func h)
  serve-Keeps n ctx ask_node_id h =
      Keeps-forget {0} rmc.max_payload n _ (get_node_id-KeepsWith rmc sys n ctx h)
  serve-Keeps n ctx ask_socket_count h =
      Keeps-forget {0} rmc.max_payload n _ (get_socket_count-KeepsWith rmc sys n ctx h)

  serve_all-Keeps :
      (n : ℕ) (ctx : Context Pub Sub) (rs : List Request)
      → Sound rmc.max_payload n ctx
      → Keeps rmc.max_payload n (serve_all rmc sys ctx rs)
  unfolding serve_all
  serve_all-Keeps n ctx [] h = h
  serve_all-Keeps n ctx (r ∷ rs) h =
      Holds->>= (Sound rmc.max_payload n) (Sound rmc.max_payload n) _ _ (serve-Keeps n ctx r h)
        λ c k. serve_all-Keeps n c rs k

  -- Functions that do nothing to the context but by calls of the API keep it sound.
  pub scripted-Keeps :
      (script : Invocation → List Request) → AppKeeps rmc.max_payload (scripted rmc sys script)
  unfolding scripted
  scripted-Keeps script n inv ctx h = serve_all-Keeps n ctx (script inv) h

  module _ (app : Invocation → Context Pub Sub → Outcome (Context Pub Sub))
      (app_keeps : AppKeeps rmc.max_payload app) where
    pub react-Keeps :
        (n : ℕ) (ctx : Context Pub Sub) (e : Event)
        → Sound rmc.max_payload n ctx
        → Keeps rmc.max_payload n (react rmc sys app ctx e)
    unfolding react
    react-Keeps n ctx (request r) h = serve-Keeps n ctx r h
    react-Keeps n ctx (packets bound) h = process_incoming-Keeps app rmc app_keeps n bound ctx h
    react-Keeps n ctx (control_message payload) h =
        subscriber_control_message_cb-Keeps rmc.max_payload n ctx payload h
    react-Keeps n ctx (subscribed node_id) h = subscription_complete-Keeps rmc n ctx node_id h
    react-Keeps n ctx disconnected h = subscriber_disconnect_cb-Keeps rmc n ctx h

    pub live-Keeps :
        (n : ℕ) (ctx : Context Pub Sub) (es : List Event)
        → Sound rmc.max_payload n ctx
        → Keeps rmc.max_payload n (live rmc sys app ctx es)
    unfolding live
    live-Keeps n ctx [] h = h
    live-Keeps n ctx (e ∷ es) h =
        Holds->>= (Sound rmc.max_payload n) (Sound rmc.max_payload n) _ _ (react-Keeps n ctx e h)
          λ c k. live-Keeps n c es k

    -- Whatever a process does and whatever rmc tells it, in any order, from _dstc_default_context
    -- on, with RMC_MAX_PAYLOAD below 2^32: setups, registrations, calls, activations, changes of
    -- the buffering, packets with any bytes, control messages, subscriptions and disconnections. If
    -- all of it returns, the context is valid and its lock is let go, provided that the
    -- application's functions leave a valid context valid and the lock as often held as they find
    -- it.
    pub live-Sound :
        (es : List Event) {ctx : Context Pub Sub}
        → live rmc sys app (default_context rmc.max_payload) es ≡ done ctx
        → IsValid rmc.max_payload ctx × (ctx.lock ≡ 0)
    unfolding default_context
    live-Sound es e =
        Holds-elim (Sound rmc.max_payload 0)
          (live-Keeps 0 (default_context rmc.max_payload) es
            (default_context-IsValid rmc.max_payload, refl))
          e
