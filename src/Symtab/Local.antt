-- ===== src/Symtab/Local.antt =====
-- dstc.c, the functions of this process: dstc_register_server_function,
-- dstc_register_client_function, _dstc_find_server_function, dstc_register_callback_client,
-- dstc_remote_function_available, and dstc_subscription_complete, which announces the server
-- functions to a node.
pub mod Laws
pub mod Announce
use dstc.Base.{
  ℕ, zero, suc, ◌+◌, ◌-◌, Bool, true, false, List, [], ◌∷◌, ◌++◌, Option, none, some, length,
  replicate, take, get_or, set, ltb, ◌==◌, if◌then◌else◌, str_eq, Outcome, done, exit, fault, ◌>>=◌,
}
use dstc.Wire.{u32, le_bytes}
use dstc.Rmc.{Rmc, System}
use dstc.Context.{
  Context, ServerFunc, ClientFunc, no_server, no_client, symtab_size, name_size, copy_name, deref,
  lock_context, unlock_context,
}
use dstc.Setup.{lock_and_init_context, locked}
use dstc.Symtab.Remote.{function_available}

-- The loop of _dstc_find_server_function, over the first `ind` slots from the last one on.
unfoldable pub find_server : List ServerFunc → List ℕ → ℕ → ℕ
find_server table name zero = 0
find_server table name (suc ind) =
    let slot = get_or table ind no_server in
    if str_eq slot.func_name name then slot.server_func else find_server table name ind

-- The name that a client function was registered with.
unfoldable pub find_client : List ClientFunc → ℕ → ℕ → Option (List ℕ)
find_client table client_func zero = none
find_client table client_func (suc ind) =
    let slot = get_or table ind no_client in
    if slot.client_func == client_func
    then some slot.func_name
    else find_client table client_func ind

-- The bytes of `ctl` that are sent: the node, the name, its terminator and one byte more. The name
-- array is zero past the copied string. Past the end of `ctl` the read faults.
unfoldable pub control_message : ℕ → List ℕ → Outcome (List ℕ)
control_message node_id name =
    let size = 4 + 1 + length name + 1 in
    if ltb (4 + name_size) size
    then fault
    else done (take size (le_bytes 4 node_id ++ (name ++ replicate (name_size - length name) 0)))

module _ {Pub Sub : Type 0} where
  unfoldable pub find_server_function : Context Pub Sub → List ℕ → ℕ
  find_server_function ctx name = find_server ctx.server_func name ctx.server_func_ind

  unfoldable pub add_server : Context Pub Sub → List ℕ → ℕ → Outcome (Context Pub Sub)
  add_server ctx name server_func = do
    func_name ← copy_name name
    done (record ctx {
      server_func =
          set ctx.server_func ctx.server_func_ind
            (record { func_name = func_name; server_func = server_func });
      server_func_ind = u32 (ctx.server_func_ind + 1);
    })

  unfoldable pub register_server_function : Context Pub Sub → List ℕ → ℕ → Outcome (Context Pub Sub)
  register_server_function ctx name server_func =
      if ctx.server_func_ind == symtab_size - 1
      then exit 255
      else add_server (lock_context ctx) name server_func >>= λ ctx. done (unlock_context ctx)

  unfoldable pub add_client : Context Pub Sub → List ℕ → ℕ → Outcome (Context Pub Sub)
  add_client ctx name client_func = do
    func_name ← copy_name name
    done (record ctx {
      client_func =
          set ctx.client_func ctx.client_func_ind
            (record { func_name = func_name; client_func = client_func });
      client_func_ind = u32 (ctx.client_func_ind + 1);
    })

  unfoldable pub register_client_function : Context Pub Sub → List ℕ → ℕ → Outcome (Context Pub Sub)
  register_client_function ctx name client_func =
      if ctx.client_func_ind == symtab_size - 1
      then exit 255
      else add_client (lock_context ctx) name client_func >>= λ ctx. done (unlock_context ctx)

  unfoldable pub register_callback_client : Context Pub Sub → Context Pub Sub
  register_callback_client ctx =
      let locked_ctx = lock_context ctx in
      unlock_context
        (record locked_ctx { client_callback_count = u32 (locked_ctx.client_callback_count + 1) })

  module _ (rmc : Rmc Pub Sub) where
    -- The loop of dstc_subscription_complete, one control message for each server function.
    unfoldable pub send_functions : List ServerFunc → ℕ → ℕ → ℕ → Sub → Outcome Sub
    send_functions table own_id node_id zero sub = done sub
    send_functions table own_id node_id (suc ind) sub = do
      message ← control_message own_id (get_or table ind no_server).func_name
      send_functions table own_id node_id ind
          (rmc.sub_write_control_message_by_node_id node_id message sub)

    -- Without server functions the publisher's context is not looked at.
    unfoldable pub subscription_complete : Context Pub Sub → ℕ → Outcome (Context Pub Sub)
    subscription_complete ctx node_id = elim (ctx.server_func_ind == 0) [
      | true ↦ done (unlock_context (lock_context ctx))
      | false ↦ do
        pub_ctx ← deref ctx.pub_ctx
        sub_ctx ← deref ctx.sub_ctx
        sub_ctx ←
            send_functions ctx.server_func (rmc.pub_node_id pub_ctx) node_id ctx.server_func_ind
              sub_ctx
        let sent = record (lock_context ctx) { sub_ctx = some sub_ctx }
        done (unlock_context sent)
    ]

    module _ (sys : System) where
      unfoldable pub remote_function_available_by_name :
          Context Pub Sub → List ℕ → Outcome (Bool × Context Pub Sub)
      remote_function_available_by_name ctx func_name =
          locked rmc sys ctx λ ctx. done (function_available ctx func_name, ctx)

      unfoldable pub remote_function_available :
          Context Pub Sub → ℕ → Outcome (Bool × Context Pub Sub)
      remote_function_available ctx client_func = locked rmc sys ctx λ ctx.
          elim (find_client ctx.client_func client_func ctx.client_func_ind) [
            | none ↦ done (false, ctx)
            | some name ↦ remote_function_available_by_name ctx name
          ]
