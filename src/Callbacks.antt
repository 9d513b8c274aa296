-- ===== src/Callbacks.antt =====
-- dstc.c, the table of one-shot callbacks: dstc_activate_callback, dstc_register_callback_server,
-- _dstc_find_callback_by_ref, _dstc_find_callback_by_func and dstc_cancel_callback.
pub mod Slots
pub mod Laws
pub mod Sound
use dstc.Base.{
  ℕ, zero, suc, ◌+◌, Bool, true, false, List, Option, none, some, get_or, set, ◌==◌, if◌then◌else◌,
  Outcome, done, exit, ◌>>=◌,
}
use dstc.Wire.{u32}
use dstc.Rmc.{Rmc, System}
use dstc.Context.{Context, LocalCallback, no_callback, symtab_size, lock_context, unlock_context}
use dstc.Setup.{lock_and_init_context, locked}

-- `while(ind < callback_ind)`, with `n` rounds left: the first slot that is free, or the end.
unfoldable pub free_slot : List LocalCallback → ℕ → ℕ → ℕ
free_slot table ind zero = ind
free_slot table ind (suc n) =
    if (get_or table ind no_callback).callback == 0 then ind else free_slot table (ind + 1) n

-- The first slot with the reference, and the first one with the function.
unfoldable pub find_ref : List LocalCallback → ℕ → ℕ → ℕ → Option ℕ
find_ref table callback_ref ind zero = none
find_ref table callback_ref ind (suc n) =
    if (get_or table ind no_callback).callback_ref == callback_ref
    then some ind
    else find_ref table callback_ref (ind + 1) n

unfoldable pub find_func : List LocalCallback → ℕ → ℕ → ℕ → Option ℕ
find_func table func ind zero = none
find_func table func ind (suc n) =
    if (get_or table ind no_callback).callback == func
    then some ind
    else find_func table func (ind + 1) n

module _ {Pub Sub : Type 0} where
  -- The rest of both registrations, once the slot is known.
  unfoldable pub fill_slot : Context Pub Sub → ℕ → ℕ → ℕ → Outcome (Context Pub Sub)
  fill_slot ctx ind callback_ref callback =
      if ind == symtab_size
      then exit 255
      else done (record ctx {
        local_callback =
            set ctx.local_callback ind
              (record { callback = callback; callback_ref = callback_ref });
        callback_ind =
            if ind == ctx.callback_ind then u32 (ctx.callback_ind + 1) else ctx.callback_ind;
      })

  unfoldable pub activate_callback : Context Pub Sub → ℕ → ℕ → Outcome (ℕ × Context Pub Sub)
  activate_callback ctx callback_ref callback =
      if callback == 0
      then done (0, ctx)
      else fill_slot ctx (free_slot ctx.local_callback 0 ctx.callback_ind) callback_ref callback
        >>= λ ctx. done (callback_ref, ctx)

  unfoldable pub register_callback_server : Context Pub Sub → ℕ → ℕ → Outcome (Context Pub Sub)
  register_callback_server ctx callback_ref callback = do
    let held = lock_context ctx
    ctx ← fill_slot held (free_slot held.local_callback 0 held.callback_ind) callback_ref callback
    done (unlock_context ctx)

  -- The callback of the slot found, if any, and the context with that slot free.
  unfoldable pub take_slot : Context Pub Sub → Option ℕ → ℕ × Context Pub Sub
  take_slot ctx none = (0, ctx)
  take_slot ctx (some ind) = (
    (get_or ctx.local_callback ind no_callback).callback,
    record ctx { local_callback = set ctx.local_callback ind no_callback },
  )

  unfoldable pub find_callback_by_ref : Context Pub Sub → ℕ → ℕ × Context Pub Sub
  find_callback_by_ref ctx callback_ref =
      take_slot ctx (find_ref ctx.local_callback callback_ref 0 ctx.callback_ind)

  unfoldable pub find_callback_by_func : Context Pub Sub → ℕ → ℕ × Context Pub Sub
  find_callback_by_func ctx func =
      take_slot ctx (find_func ctx.local_callback func 0 ctx.callback_ind)

  unfoldable pub cancel_callback :
      Rmc Pub Sub → System → Context Pub Sub → ℕ → Outcome (ℕ × Context Pub Sub)
  cancel_callback rmc sys ctx callback =
      locked rmc sys ctx λ ctx. done (find_callback_by_func ctx callback)
