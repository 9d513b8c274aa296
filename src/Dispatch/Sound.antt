-- ===== src/Dispatch/Sound.antt =====
-- dstc_process_incoming of dstc.c and the soundness of the context.
use dstc.Base.{
  ℕ, zero, suc, ◌+◌, arith, List, [], ◌∷◌, some, length, drop, ltb, ◌-◌, Outcome, done, Holds->>=,
  Holds-any, Holds-if, Holds-option, ◌==◌,
}
use dstc.Wire.{Header, c_string, header_size, read_header, u32}
use dstc.Rmc.{Rmc}
use dstc.Context.{Context, deref, lock_context}
use dstc.Context.Sound.{Sound, Keeps, KeepsWith, lock_context-Sound, Keeps-unlock}
use dstc.Callbacks.Sound.{find_callback_by_ref-Sound}
use dstc.Dispatch.{
  Invocation, read_ref, invoke, process_named, process_callback, process_payload,
  process_function_call, process_calls, process_packet, process_packets, process_incoming,
}

-- Functions that keep the context sound, with the lock as often held as they find it.
module _ {Pub Sub : Type 0} where
  abbrev pub AppKeeps : ℕ → (Invocation → Context Pub Sub → Outcome (Context Pub Sub)) → Type 0
  AppKeeps max_payload app =
      (n : ℕ) (inv : Invocation) (ctx : Context Pub Sub)
      → Sound max_payload n ctx
      → Keeps max_payload n (app inv ctx)

module _ {Pub Sub : Type 0} (app : Invocation → Context Pub Sub → Outcome (Context Pub Sub))
    (max_payload : ℕ) (app_keeps : AppKeeps max_payload app) where
  invoke-Keeps :
      (n : ℕ) (inv : Invocation) (ctx : Context Pub Sub)
      → Sound max_payload n ctx
      → Keeps max_payload n (invoke app inv ctx)
  unfolding invoke
  invoke-Keeps n inv ctx h =
      Holds-if (Sound max_payload n) (inv.func == 0) (done ctx) _ h (app_keeps n inv ctx h)

  process_payload-Keeps :
      (n : ℕ) (bytes : List ℕ) (ctx : Context Pub Sub) (call : Header)
      → Sound max_payload n ctx
      → Keeps max_payload n (process_payload app bytes ctx call)
  unfolding process_payload process_named process_callback
  process_payload-Keeps n [] ctx call h = tt
  process_payload-Keeps n (b ∷ bytes) ctx call h =
      Holds-if (Sound max_payload n) (b == 0) _ _
        (Holds-any (Sound max_payload n) (read_ref (drop 1 call.payload)) _
          λ ref. invoke-Keeps n _ _ (find_callback_by_ref-Sound max_payload n ctx ref h))
        (Holds-any (Sound max_payload n) (deref (c_string call.payload)) _
          λ name. invoke-Keeps n _ ctx h)

  process_function_call-KeepsWith :
      (n : ℕ) (ctx : Context Pub Sub) (bytes : List ℕ)
      → Sound max_payload n ctx
      → KeepsWith max_payload n (process_function_call app ctx bytes)
  unfolding process_function_call
  process_function_call-KeepsWith n ctx bytes h =
      let call = read_header bytes in
      Holds-if (λ r. Sound max_payload n r.1) (ltb (length bytes) header_size)
        (done (length bytes, ctx)) _ h
        (Holds-if (λ r. Sound max_payload n r.1) (ltb (length bytes - header_size) call.payload_len)
          (done (length bytes, ctx)) _ h
          (Holds->>= (Sound max_payload n) (λ r. Sound max_payload n r.1)
            (process_payload app call.payload ctx call)
            (λ c. done (u32 (header_size + call.payload_len), c))
            (process_payload-Keeps n call.payload ctx call h) λ c k. k))

  process_calls-Keeps :
      (n fuel : ℕ) (ctx : Context Pub Sub) (bytes : List ℕ)
      → Sound max_payload n ctx
      → Keeps max_payload n (process_calls app fuel ctx bytes)
  unfolding process_calls
  process_calls-Keeps n zero ctx [] h = h
  process_calls-Keeps n (suc fuel) ctx [] h = h
  process_calls-Keeps n zero ctx (b ∷ bytes) h = tt
  process_calls-Keeps n (suc fuel) ctx (b ∷ bytes) h =
      Holds->>= (λ r. Sound max_payload n r.1) (Sound max_payload n) _ _
        (process_function_call-KeepsWith n ctx (b ∷ bytes) h)
        λ r k. process_calls-Keeps n fuel r.1 (drop r.0 (b ∷ bytes)) k

  pub process_packet-Keeps :
      (n : ℕ) (ctx : Context Pub Sub) (payload : List ℕ)
      → Sound max_payload n ctx
      → Keeps max_payload n (process_packet app ctx payload)
  unfolding process_packet
  process_packet-Keeps n ctx payload h = process_calls-Keeps n (length payload) ctx payload h

module _ {Pub Sub : Type 0} (app : Invocation → Context Pub Sub → Outcome (Context Pub Sub))
    (rmc : Rmc Pub Sub) (app_keeps : AppKeeps rmc.max_payload app) where
  process_packets-Keeps :
      (n fuel : ℕ) (ctx : Context Pub Sub)
      → Sound rmc.max_payload n ctx
      → Keeps rmc.max_payload n (process_packets app rmc fuel ctx)
  unfolding process_packets
  process_packets-Keeps n zero ctx h =
      Holds-any (Sound rmc.max_payload n) (deref ctx.sub_ctx) _ λ s.
        Holds-option (Sound rmc.max_payload n) (rmc.sub_get_next_dispatch_ready s) (done ctx) _ h
          λ payload. tt
  process_packets-Keeps n (suc fuel) ctx h =
      Holds-any (Sound rmc.max_payload n) (deref ctx.sub_ctx) _ λ s.
        Holds-option (Sound rmc.max_payload n) (rmc.sub_get_next_dispatch_ready s) (done ctx) _ h
          λ payload.
            Holds->>= (Sound rmc.max_payload n) (Sound rmc.max_payload n) _ _
              (process_packet-Keeps app rmc.max_payload app_keeps n
                (record ctx { sub_ctx = some (rmc.sub_packet_dispatched_keep_payload s) }) payload
                (ground arith, h.1))
              λ c k. process_packets-Keeps n fuel c k

  pub process_incoming-Keeps :
      (n fuel : ℕ) (ctx : Context Pub Sub)
      → Sound rmc.max_payload n ctx
      → Keeps rmc.max_payload n (process_incoming app rmc fuel ctx)
  unfolding process_incoming
  process_incoming-Keeps n fuel ctx h = Keeps-unlock rmc.max_payload n _ (
      process_packets-Keeps (n + 1) fuel (lock_context ctx)
        (lock_context-Sound rmc.max_payload n ctx h))
