-- ===== src/Queue/Descriptor.antt =====
-- A call of the API that queues a call leaves the descriptor of the event loop as it is.
use dstc.Base.{
  ℕ, ◌≡◌, List, Option, some, ltb, ◌==◌, ◌&&◌, done, exit, ◌>>=◌, Holds, Holds->>=, Holds-any,
  Holds-if, Bool-cases, inl, inr,
}
use dstc.Rmc.{Rmc, System}
use dstc.Context.{
  Context, deref, pending, lock_context, unlock_context, payload_buffer_alloc,
  payload_buffer_available, payload_buffer_in_use, payload_buffer_empty,
}
use dstc.Setup.Laws.{context_initialized_lem, locked_lem}
use dstc.Queue.{
  send_if_ready, queue_pending_calls, get_node_id, ensure_setup, write_call, call_size, store_call,
  store_or_full, alloc_and_store, queue, is_nameless,
}

module _ {Pub Sub : Type 0} (rmc : Rmc Pub Sub) (sys : System) (fd : Option ℕ) where
  abbrev pub WaitsOn : Context Pub Sub → Type 0
  WaitsOn ctx = ctx.epoll_fd ≡ fd

  queue_pending_calls-WaitsOn :
      (ctx : Context Pub Sub) → WaitsOn ctx → Holds WaitsOn (queue_pending_calls rmc ctx)
  unfolding queue_pending_calls send_if_ready payload_buffer_empty
  queue_pending_calls-WaitsOn ctx same = Holds-any WaitsOn (deref ctx.pub_ctx) _ λ p.
      let (res, sent) = rmc.pub_queue_packet (pending ctx) p in
      Holds-if WaitsOn (rmc.pub_traffic_suspended p == 0 && ltb 0 (payload_buffer_in_use ctx)) _ _
        (Holds-if WaitsOn (res == 0) _ (exit 255) same tt) same

  store_call-WaitsOn :
      (ctx : Context Pub Sub) (p : Pub) (off : ℕ) (name : Option (List ℕ)) (ref : ℕ) (arg : List ℕ)
      → ctx.pub_ctx ≡ some p
      → WaitsOn ctx
      → Holds (λ r. WaitsOn r.1) (store_call rmc sys ctx off name ref arg)
  unfolding store_call get_node_id lock_context unlock_context
  store_call-WaitsOn ctx p off name ref arg up same =
      rw
        (locked_lem {0} rmc sys ctx {pub_ctx = p}
          (λ c. deref c.pub_ctx >>= λ p. done (rmc.pub_node_id p, c)) up)
        (Holds->>= (λ r. WaitsOn r.1) (λ r. WaitsOn r.1) _ _
          (Holds->>= (λ r. WaitsOn r.1) (λ r. WaitsOn r.1) _ _
            (Holds-any (λ r. WaitsOn r.1) (deref ctx.pub_ctx) _ λ p. same) λ r k. k)
          λ r k.
            Holds-any (λ r. WaitsOn r.1) (write_call r.1.pub_buffer off r.0 name ref arg) _
              λ buf.
                Holds-if (λ r. WaitsOn r.1) r.1.pub_is_buffering _ _ k
                  (Holds->>= WaitsOn (λ r. WaitsOn r.1) _ _
                    (queue_pending_calls-WaitsOn (record r.1 { pub_buffer = buf }) k) λ c k'. k'))

  pub queue-WaitsOn :
      (ctx : Context Pub Sub) (p : Pub) (name : Option (List ℕ)) (ref : ℕ) (arg : List ℕ)
      → ctx.pub_ctx ≡ some p
      → WaitsOn ctx
      → Holds (λ r. WaitsOn r.1) (queue rmc sys ctx name ref arg)
  unfolding queue ensure_setup alloc_and_store store_or_full payload_buffer_alloc
  queue-WaitsOn ctx p name ref arg up same =
      Holds-if (λ r. WaitsOn r.1) (is_nameless name && ref == 0) _ _ same
        (rw (context_initialized_lem ctx {pub_ctx = p} up)
          (elim (Bool-cases (ltb (payload_buffer_available ctx) (call_size name ref arg))) [
            | inl full ↦ rw full (
                Holds->>= WaitsOn (λ r. WaitsOn r.1) (queue_pending_calls rmc ctx) _
                  (queue_pending_calls-WaitsOn ctx same) λ c k. k)
            | inr room ↦ rw room (store_call-WaitsOn _ p _ name ref arg up same)
          ]))
