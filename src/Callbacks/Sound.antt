-- ===== src/Callbacks/Sound.antt =====
-- The functions of dstc.c on the callback table, and the soundness of the context.
use dstc.Base.{
  ℕ, ◌+◌, arith, Option, none, some, length-set, Holds->>=, Holds-if, Holds-intro, ◌==◌, done,
}
use dstc.Rmc.{Rmc, System}
use dstc.Context.{Context, no_callback, lock_context}
use dstc.Context.Sound.{Sound, Keeps, KeepsWith, lock_context-Sound, Keeps-unlock}
use dstc.Setup.Sound.{locked-KeepsWith}
use dstc.Callbacks.{
  free_slot, fill_slot, activate_callback, register_callback_server, take_slot,
  find_callback_by_ref, find_callback_by_func, cancel_callback,
}
use dstc.Callbacks.Laws.{fill_slot-IsValid}

module _ {Pub Sub : Type 0} (max_payload : ℕ) where
  fill_slot-Keeps :
      (n : ℕ) (ctx : Context Pub Sub) (callback_ref callback : ℕ)
      → Sound max_payload n ctx
      → Keeps max_payload n
          (fill_slot ctx (free_slot ctx.local_callback 0 ctx.callback_ind) callback_ref callback)
  unfolding fill_slot
  fill_slot-Keeps n ctx callback_ref callback h =
      Holds-intro (Sound max_payload n) _
        λ c e. (fill_slot-IsValid max_payload ctx h.0 callback_ref callback e, ground arith)

  pub activate_callback-KeepsWith :
      (n : ℕ) (ctx : Context Pub Sub) (callback_ref callback : ℕ)
      → Sound max_payload n ctx
      → KeepsWith max_payload n (activate_callback ctx callback_ref callback)
  unfolding activate_callback
  activate_callback-KeepsWith n ctx callback_ref callback h =
      Holds-if (λ r. Sound max_payload n r.1) (callback == 0) (done (0, ctx)) _ h
        (Holds->>= (Sound max_payload n) (λ r. Sound max_payload n r.1) _ _
          (fill_slot-Keeps n ctx callback_ref callback h) λ c k. k)

  pub register_callback_server-Keeps :
      (n : ℕ) (ctx : Context Pub Sub) (callback_ref callback : ℕ)
      → Sound max_payload n ctx
      → Keeps max_payload n (register_callback_server ctx callback_ref callback)
  unfolding register_callback_server
  register_callback_server-Keeps n ctx callback_ref callback h = Keeps-unlock max_payload n _ (
      fill_slot-Keeps (n + 1) (lock_context ctx) callback_ref callback
        (lock_context-Sound max_payload n ctx h))

  take_slot-Sound :
      (n : ℕ) (ctx : Context Pub Sub) (slot : Option ℕ)
      → Sound max_payload n ctx
      → Sound max_payload n (take_slot ctx slot).1
  unfolding take_slot
  take_slot-Sound n ctx none h = h
  take_slot-Sound n ctx (some ind) h =
      (ground (arith, length-set ctx.local_callback ind no_callback), h.1)

  pub find_callback_by_ref-Sound :
      (n : ℕ) (ctx : Context Pub Sub) (callback_ref : ℕ)
      → Sound max_payload n ctx
      → Sound max_payload n (find_callback_by_ref ctx callback_ref).1
  unfolding find_callback_by_ref
  find_callback_by_ref-Sound n ctx callback_ref h = take_slot-Sound n ctx _ h

  find_callback_by_func-Sound :
      (n : ℕ) (ctx : Context Pub Sub) (func : ℕ)
      → Sound max_payload n ctx
      → Sound max_payload n (find_callback_by_func ctx func).1
  unfolding find_callback_by_func
  find_callback_by_func-Sound n ctx func h = take_slot-Sound n ctx _ h

pub cancel_callback-KeepsWith :
    {Pub Sub : Type 0} (rmc : Rmc Pub Sub) (sys : System) (n : ℕ) (ctx : Context Pub Sub)
    (callback : ℕ)
    → Sound rmc.max_payload n ctx
    → KeepsWith rmc.max_payload n (cancel_callback rmc sys ctx callback)
unfolding cancel_callback
cancel_callback-KeepsWith rmc sys n ctx callback h =
    locked-KeepsWith {0} rmc sys n ctx (λ c. done (find_callback_by_func c callback)) h
      λ c k. find_callback_by_func-Sound rmc.max_payload (n + 1) c callback k
