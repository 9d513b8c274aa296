-- ===== src/Queue/Sound.antt =====
-- The outbound functions of dstc.c and the soundness of the context.
use dstc.Base.{
  ℕ, ◌+◌, ◌≤◌, ◌^◌, ◌<◌, ◌≡◌, arith, List, Option, none, some, true, false, length, length-append,
  length-take, length-drop, take, drop, ◌++◌, ltb, Outcome, done, ◌>>=◌, Holds, Holds->>=,
  Holds-any, Holds-if, Holds-intro, Bool-cases, inl, inr, ◌&&◌, ◌==◌,
}
use dstc.Wire.{header_size, ref_size}
use dstc.Rmc.{Rmc, System}
use dstc.Context.{Context, deref, memcpy, context_initialized, lock_context, payload_buffer_empty}
use dstc.Context.Sound.{
  Sound, Keeps, KeepsWith, lock_context-Sound, KeepsWith-unlock, Keeps-with, Keeps-forget,
}
use dstc.Context.Buffer.{payload_buffer_alloc-fits, payload_buffer_alloc-full}
use dstc.Setup.{setup, einval, ebusy}
use dstc.Setup.Sound.{locked-KeepsWith, setup-KeepsWith}
use dstc.Queue.{
  write_call, send_if_ready, queue_pending_calls, get_node_id, get_socket_count, ensure_setup,
  store_call, store_or_full, alloc_and_store, queue, queue_callback, queue_func,
  buffer_client_calls, flush_client_calls, unbuffer_client_calls, is_nameless, call_size,
}

memcpy-length :
    (n : ℕ) (buf : List ℕ) (off : ℕ) (src : List ℕ)
    → length buf ≡ n
    → Holds (λ b. length b ≡ n) (memcpy buf off src)
unfolding memcpy
memcpy-length n buf off src h =
    Holds-intro (λ b. length b ≡ n) _
      λ b e. ground (
        arith,
        length-append (take off buf) (src ++ drop (off + length src) buf),
        length-append src (drop (off + length src) buf),
        length-take off buf,
        length-drop (off + length src) buf,
      )

-- Code that goes on with a buffer of the same length.
memcpy-then :
    (n : ℕ) (buf : List ℕ) (off : ℕ) (src : List ℕ) (f : List ℕ → Outcome (List ℕ))
    → length buf ≡ n
    → ((b : List ℕ) → length b ≡ n → Holds (λ b. length b ≡ n) (f b))
    → Holds (λ b. length b ≡ n) (memcpy buf off src >>= f)
memcpy-then n buf off src f h k =
    Holds->>= (λ b. length b ≡ n) (λ b. length b ≡ n) (memcpy buf off src) f
      (memcpy-length n buf off src h) k

write_call-length :
    (n : ℕ) (buf : List ℕ) (off node_id : ℕ) (name : Option (List ℕ)) (callback_ref : ℕ)
    (arg : List ℕ)
    → length buf ≡ n
    → Holds (λ b. length b ≡ n) (write_call buf off node_id name callback_ref arg)
unfolding write_call
write_call-length n buf off node_id (some name) callback_ref arg h =
    memcpy-then n buf off _ _ h λ b1 h1. memcpy-then n b1 (off + header_size) _ _ h1 λ b2 h2.
      memcpy-then n b2 (off + 4) _ _ h2
        λ b3 h3. memcpy-length n b3 (off + header_size + (length name + 1)) arg h3
write_call-length n buf off node_id none callback_ref arg h = memcpy-then n buf off _ _ h λ b1 h1.
    memcpy-then n b1 (off + header_size) _ _ h1 λ b2 h2.
      memcpy-then n b2 (off + header_size + 1) _ _ h2 λ b3 h3.
        memcpy-then n b3 (off + 4) _ _ h3
          λ b4 h4. memcpy-length n b4 (off + header_size + (1 + ref_size)) arg h4

module _ {Pub Sub : Type 0} (rmc : Rmc Pub Sub) where
  send_if_ready-Keeps :
      (n : ℕ) (ctx : Context Pub Sub) (pub_ctx : Pub)
      → Sound rmc.max_payload n ctx
      → Keeps rmc.max_payload n (send_if_ready rmc ctx pub_ctx)
  unfolding send_if_ready payload_buffer_empty
  send_if_ready-Keeps n ctx pub_ctx h =
      Holds-intro (Sound rmc.max_payload n) (send_if_ready rmc ctx pub_ctx)
        λ c e. (ground arith, ground arith)

  pub queue_pending_calls-Keeps :
      (n : ℕ) (ctx : Context Pub Sub)
      → Sound rmc.max_payload n ctx
      → Keeps rmc.max_payload n (queue_pending_calls rmc ctx)
  unfolding queue_pending_calls
  queue_pending_calls-Keeps n ctx h =
      Holds-any (Sound rmc.max_payload n) (deref ctx.pub_ctx) _
        λ pub_ctx. send_if_ready-Keeps n ctx pub_ctx h

  module _ (sys : System) where
    pub get_node_id-KeepsWith :
        (n : ℕ) (ctx : Context Pub Sub)
        → Sound rmc.max_payload n ctx
        → KeepsWith rmc.max_payload n (get_node_id rmc sys ctx)
    unfolding get_node_id
    get_node_id-KeepsWith n ctx h =
        locked-KeepsWith {0} rmc sys n ctx _ h
          λ c k. Holds-any (λ r. Sound rmc.max_payload (n + 1) r.1) (deref c.pub_ctx) _ λ p. k

    pub get_socket_count-KeepsWith :
        (n : ℕ) (ctx : Context Pub Sub)
        → Sound rmc.max_payload n ctx
        → KeepsWith rmc.max_payload n (get_socket_count rmc sys ctx)
    unfolding get_socket_count
    get_socket_count-KeepsWith n ctx h = locked-KeepsWith {0} rmc sys n ctx _ h λ c k.
        Holds-any (λ r. Sound rmc.max_payload (n + 1) r.1) (deref c.sub_ctx) _
          λ s. Holds-any (λ r. Sound rmc.max_payload (n + 1) r.1) (deref c.pub_ctx) _ λ p. k

    ensure_setup-Keeps :
        (n : ℕ) (ctx : Context Pub Sub)
        → Sound rmc.max_payload n ctx
        → Keeps rmc.max_payload n (ensure_setup rmc sys ctx)
    unfolding ensure_setup
    ensure_setup-Keeps n ctx h =
        Holds-if (Sound rmc.max_payload n) (context_initialized ctx) _ _ h
          (Keeps-forget rmc.max_payload n (setup rmc sys ctx) (setup-KeepsWith rmc sys n ctx h))

    store_call-KeepsWith :
        (n : ℕ) (ctx : Context Pub Sub) (off : ℕ) (name : Option (List ℕ)) (callback_ref : ℕ)
        (arg : List ℕ)
        → Sound rmc.max_payload n ctx
        → KeepsWith rmc.max_payload n (store_call rmc sys ctx off name callback_ref arg)
    unfolding store_call
    store_call-KeepsWith n ctx off name callback_ref arg h =
        Holds->>= (λ r. Sound rmc.max_payload n r.1) (λ r. Sound rmc.max_payload n r.1) _ _
          (get_node_id-KeepsWith n ctx h)
          λ (node_id, c) k.
            Holds->>= (λ b. length b ≡ rmc.max_payload) (λ r. Sound rmc.max_payload n r.1) _ _
              (write_call-length rmc.max_payload c.pub_buffer off node_id name callback_ref arg
                k.0.buffer_size)
              λ buf size.
                let put : Sound rmc.max_payload n (record c { pub_buffer = buf }) =
                  (ground arith, k.1) in
                Holds-if (λ r. Sound rmc.max_payload n r.1) c.pub_is_buffering _ _ put
                  (Keeps-with rmc.max_payload n 0 _ (queue_pending_calls-Keeps n _ put))

    module _ (small : rmc.max_payload < 2 ^ 32) where
      alloc_and_store-KeepsWith :
          (n : ℕ) (ctx : Context Pub Sub) (name : Option (List ℕ)) (callback_ref : ℕ) (arg : List ℕ)
          → Sound rmc.max_payload n ctx
          → KeepsWith rmc.max_payload n (alloc_and_store rmc sys ctx name callback_ref arg)
      unfolding alloc_and_store store_or_full
      alloc_and_store-KeepsWith n ctx name callback_ref arg h =
          let size = call_size name callback_ref arg in
          let ind = ctx.pub_buffer_ind in
          let more : Context Pub Sub = record ctx { pub_buffer_ind = ind + size } in
          elim (Bool-cases (ltb (length ctx.pub_buffer) (ind + size))) [
            | inl full ↦
                rw (payload_buffer_alloc-full ctx size (omega arith) (omega arith) (ground arith))
                  (Keeps-with rmc.max_payload n ebusy _ (queue_pending_calls-Keeps n ctx h))
            | inr room ↦
                let fits : ind + size ≤ length ctx.pub_buffer = ground arith in
                let next : Sound rmc.max_payload n more = (ground arith, h.1) in
                rw (payload_buffer_alloc-fits ctx size (omega arith) fits)
                  (store_call-KeepsWith n more ind name callback_ref arg next)
          ]

      pub queue-KeepsWith :
          (n : ℕ) (ctx : Context Pub Sub) (name : Option (List ℕ)) (callback_ref : ℕ) (arg : List ℕ)
          → Sound rmc.max_payload n ctx
          → KeepsWith rmc.max_payload n (queue rmc sys ctx name callback_ref arg)
      unfolding queue
      queue-KeepsWith n ctx name callback_ref arg h =
          Holds-if (λ r. Sound rmc.max_payload n r.1) (is_nameless name && callback_ref == 0)
            (done (einval, ctx)) _ h
            (Holds->>= (Sound rmc.max_payload n) (λ r. Sound rmc.max_payload n r.1) _ _
              (ensure_setup-Keeps n ctx h)
              λ c k. alloc_and_store-KeepsWith n c name callback_ref arg k)

      pub queue_callback-KeepsWith :
          (n : ℕ) (ctx : Context Pub Sub) (addr : ℕ) (arg : List ℕ)
          → Sound rmc.max_payload n ctx
          → KeepsWith rmc.max_payload n (queue_callback rmc sys ctx addr arg)
      unfolding queue_callback
      queue_callback-KeepsWith n ctx addr arg h =
          locked-KeepsWith {0} rmc sys n ctx _ h λ c k. queue-KeepsWith (n + 1) c none addr arg k

      pub queue_func-KeepsWith :
          (n : ℕ) (ctx : Context Pub Sub) (name arg : List ℕ)
          → Sound rmc.max_payload n ctx
          → KeepsWith rmc.max_payload n (queue_func rmc sys ctx name arg)
      unfolding queue_func
      queue_func-KeepsWith n ctx name arg h = KeepsWith-unlock {0} rmc.max_payload n _ (
          queue-KeepsWith (n + 1) (lock_context ctx) (some name) 0 arg
            (lock_context-Sound rmc.max_payload n ctx h))

    pub buffer_client_calls-KeepsWith :
        (n : ℕ) (ctx : Context Pub Sub)
        → Sound rmc.max_payload n ctx
        → KeepsWith rmc.max_payload n (buffer_client_calls rmc sys ctx)
    unfolding buffer_client_calls
    buffer_client_calls-KeepsWith n ctx h =
        locked-KeepsWith {0} rmc sys n ctx (λ c. done (tt, record c { pub_is_buffering = true })) h
          λ c k. (ground arith, k.1)

    pub flush_client_calls-KeepsWith :
        (n : ℕ) (ctx : Context Pub Sub)
        → Sound rmc.max_payload n ctx
        → KeepsWith rmc.max_payload n (flush_client_calls rmc sys ctx)
    unfolding flush_client_calls
    flush_client_calls-KeepsWith n ctx h =
        locked-KeepsWith {0} rmc sys n ctx _ h
          λ c k. Keeps-with rmc.max_payload (n + 1) tt _ (queue_pending_calls-Keeps (n + 1) c k)

    pub unbuffer_client_calls-KeepsWith :
        (n : ℕ) (ctx : Context Pub Sub)
        → Sound rmc.max_payload n ctx
        → KeepsWith rmc.max_payload n (unbuffer_client_calls rmc sys ctx)
    unfolding unbuffer_client_calls
    unbuffer_client_calls-KeepsWith n ctx h = locked-KeepsWith {0} rmc sys n ctx _ h λ c k.
        Keeps-with rmc.max_payload (n + 1) tt _ (
          queue_pending_calls-Keeps (n + 1) (record c { pub_is_buffering = false })
            (ground arith, k.1))
