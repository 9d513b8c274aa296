-- ===== src/Symtab/Remote.antt =====
-- dstc.c, the remote functions: dstc_register_remote_function, dstc_unregister_remote_node, the two
-- rmc callbacks that call them, and dstc_remote_function_available_by_name.
pub mod Laws
use dstc.Base.{
  ℕ, zero, suc, ◌+◌, Bool, true, false, ◌&&◌, not, List, [], ◌∷◌, Option, none, some, length, take,
  drop, get_or, set, ◌==◌, if◌then◌else◌, str_eq, Outcome, done, exit, fault, ◌>>=◌,
}
use dstc.Wire.{u32, le_value, c_string}
use dstc.Rmc.{Rmc}
use dstc.Context.{
  Context, RemoteNode, no_remote, symtab_size, copy_name, deref, lock_context, unlock_context,
}

-- `while(ind--)`: whether one of the first `ind` slots holds this node with this name.
unfoldable pub is_registered : List RemoteNode → ℕ → List ℕ → ℕ → Bool
is_registered table node_id name zero = false
is_registered table node_id name (suc ind) =
    let slot = get_or table ind no_remote in
    if node_id == slot.node_id && str_eq name slot.func_name
    then true
    else is_registered table node_id name ind

-- The slots of the node become `{ 0, "" }`; they are not given back.
unfoldable pub clear_node : List RemoteNode → ℕ → ℕ → List RemoteNode
clear_node table node_id zero = table
clear_node table node_id (suc ind) =
    clear_node
      (if node_id == (get_or table ind no_remote).node_id then set table ind no_remote else table)
      node_id ind

unfoldable pub find_remote : List RemoteNode → List ℕ → ℕ → Bool
find_remote table name zero = false
find_remote table name (suc ind) =
    let slot = get_or table ind no_remote in
    if not (slot.node_id == 0) && str_eq name slot.func_name
    then true
    else find_remote table name ind

module _ {Pub Sub : Type 0} where
  unfoldable pub add_remote : Context Pub Sub → ℕ → List ℕ → Outcome (Context Pub Sub)
  add_remote ctx node_id func_name = do
    name ← copy_name func_name
    done (record ctx {
      remote_node =
          set ctx.remote_node ctx.remote_node_ind (record { node_id = node_id; func_name = name });
      remote_node_ind = u32 (ctx.remote_node_ind + 1);
    })

  unfoldable pub register_remote_function : Context Pub Sub → ℕ → List ℕ → Outcome (Context Pub Sub)
  register_remote_function ctx node_id func_name =
      if is_registered ctx.remote_node node_id func_name ctx.remote_node_ind
      then done ctx
      else if ctx.remote_node_ind == symtab_size
      then exit 255
      else add_remote ctx node_id func_name

  unfoldable pub unregister_remote_node : Context Pub Sub → ℕ → Context Pub Sub
  unregister_remote_node ctx node_id = record ctx {
    remote_node = clear_node ctx.remote_node node_id ctx.remote_node_ind;
  }

  -- The bytes of a `dstc_control_message_t`: the node and a name, whatever the length says.
  unfoldable pub subscriber_control_message_cb :
      Context Pub Sub → List ℕ → Outcome (Context Pub Sub)
  subscriber_control_message_cb ctx payload = do
    name ← deref (c_string (drop 4 payload))
    ctx ← register_remote_function (lock_context ctx) (le_value (take 4 payload)) name
    done (unlock_context ctx)

  unfoldable pub subscriber_disconnect_cb :
      Rmc Pub Sub → Context Pub Sub → Outcome (Context Pub Sub)
  subscriber_disconnect_cb rmc ctx = do
    pub_ctx ← deref ctx.pub_ctx
    done (unlock_context (unregister_remote_node (lock_context ctx) (rmc.pub_node_id pub_ctx)))

  unfoldable pub function_available : Context Pub Sub → List ℕ → Bool
  function_available ctx name = find_remote ctx.remote_node name ctx.remote_node_ind
