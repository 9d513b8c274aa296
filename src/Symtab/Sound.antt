-- ===== src/Symtab/Sound.antt =====
-- The functions of dstc.c on the tables of functions, and the soundness of the context.
use dstc.Base.{
  ℕ, zero, suc, ◌+◌, ◌≡◌, ◌∙◌, refl, false, arith, List, take, drop, length, length-set, set,
  Holds-any, Holds-option, Holds-intro, done,
}
use dstc.Wire.{c_string, le_value}
use dstc.Rmc.{Rmc, System}
use dstc.Context.{Context, RemoteNode, no_remote, deref, copy_name, lock_context, unlock_context}
use dstc.Context.Sound.{
  Sound, Keeps, KeepsWith, lock_context-Sound, unlock_context-Sound, Keeps-unlock,
}
use dstc.Setup.Sound.{locked-KeepsWith}
use dstc.Symtab.Remote.{
  add_remote, register_remote_function, clear_node, unregister_remote_node,
  subscriber_control_message_cb, subscriber_disconnect_cb, function_available,
}
use dstc.Symtab.Remote.Laws.{register_remote_function-IsValid}
use dstc.Symtab.Local.{
  register_server_function, register_client_function, register_callback_client, find_client,
  subscription_complete, remote_function_available_by_name, remote_function_available,
}
use dstc.Symtab.Local.Laws.{register_server_function-IsValid, register_client_function-IsValid}

length-clear_node :
    (table : List RemoteNode) (node_id n : ℕ) → length (clear_node table node_id n) ≡ length table
unfolding clear_node
length-clear_node table node_id zero = refl
length-clear_node table node_id (suc n) = ground (
  arith,
  length-set table n no_remote,
  length-clear_node table node_id n,
  length-clear_node (set table n no_remote) node_id n,
)

module _ {Pub Sub : Type 0} (max_payload : ℕ) where
  pub register_remote_function-Keeps :
      (n : ℕ) (ctx : Context Pub Sub) (node_id : ℕ) (name : List ℕ)
      → Sound max_payload n ctx
      → Keeps max_payload n (register_remote_function ctx node_id name)
  unfolding register_remote_function add_remote copy_name
  register_remote_function-Keeps n ctx node_id name h =
      Holds-intro (Sound max_payload n) (register_remote_function ctx node_id name)
        λ c e. (register_remote_function-IsValid max_payload ctx node_id name h.0 e, ground arith)

  pub subscriber_control_message_cb-Keeps :
      (n : ℕ) (ctx : Context Pub Sub) (payload : List ℕ)
      → Sound max_payload n ctx
      → Keeps max_payload n (subscriber_control_message_cb ctx payload)
  unfolding subscriber_control_message_cb
  subscriber_control_message_cb-Keeps n ctx payload h =
      Holds-any (Sound max_payload n) (deref (c_string (drop 4 payload))) _ λ name.
        Keeps-unlock max_payload n _ (
          register_remote_function-Keeps (n + 1) (lock_context ctx) (le_value (take 4 payload)) name
            (lock_context-Sound max_payload n ctx h))

  unregister_remote_node-Sound :
      (n : ℕ) (ctx : Context Pub Sub) (node_id : ℕ)
      → Sound max_payload n ctx
      → Sound max_payload n (unregister_remote_node ctx node_id)
  unfolding unregister_remote_node
  unregister_remote_node-Sound n ctx node_id h =
      (ground (arith, length-clear_node ctx.remote_node node_id ctx.remote_node_ind), h.1)

  pub register_server_function-Keeps :
      (n : ℕ) (ctx : Context Pub Sub) (name : List ℕ) (server_func : ℕ)
      → Sound max_payload n ctx
      → Keeps max_payload n (register_server_function ctx name server_func)
  register_server_function-Keeps n ctx name server_func h =
      Holds-intro (Sound max_payload n) _ λ c e.
        let (valid, lock) =
          register_server_function-IsValid max_payload ctx name server_func h.0 e in
        (valid, lock ∙ h.1)

  pub register_client_function-Keeps :
      (n : ℕ) (ctx : Context Pub Sub) (name : List ℕ) (client_func : ℕ)
      → Sound max_payload n ctx
      → Keeps max_payload n (register_client_function ctx name client_func)
  register_client_function-Keeps n ctx name client_func h =
      Holds-intro (Sound max_payload n) _ λ c e.
        let (valid, lock) =
          register_client_function-IsValid max_payload ctx name client_func h.0 e in
        (valid, lock ∙ h.1)

  pub register_callback_client-Sound :
      (n : ℕ) (ctx : Context Pub Sub)
      → Sound max_payload n ctx
      → Sound max_payload n (register_callback_client ctx)
  unfolding register_callback_client lock_context unlock_context
  register_callback_client-Sound n ctx h = (ground arith, omega (arith, h.1))

module _ {Pub Sub : Type 0} (rmc : Rmc Pub Sub) where
  pub subscriber_disconnect_cb-Keeps :
      (n : ℕ) (ctx : Context Pub Sub)
      → Sound rmc.max_payload n ctx
      → Keeps rmc.max_payload n (subscriber_disconnect_cb rmc ctx)
  unfolding subscriber_disconnect_cb
  subscriber_disconnect_cb-Keeps n ctx h =
      Holds-any (Sound rmc.max_payload n) (deref ctx.pub_ctx) _ λ p.
        unlock_context-Sound rmc.max_payload n _ (
          unregister_remote_node-Sound rmc.max_payload (n + 1) (lock_context ctx)
            (rmc.pub_node_id p) (lock_context-Sound rmc.max_payload n ctx h))

  pub subscription_complete-Keeps :
      (n : ℕ) (ctx : Context Pub Sub) (node_id : ℕ)
      → Sound rmc.max_payload n ctx
      → Keeps rmc.max_payload n (subscription_complete rmc ctx node_id)
  unfolding subscription_complete lock_context unlock_context
  subscription_complete-Keeps n ctx node_id h =
      Holds-intro (Sound rmc.max_payload n) (subscription_complete rmc ctx node_id)
        λ c e. (ground arith, ground arith)

  module _ (sys : System) where
    pub remote_function_available_by_name-KeepsWith :
        (n : ℕ) (ctx : Context Pub Sub) (name : List ℕ)
        → Sound rmc.max_payload n ctx
        → KeepsWith rmc.max_payload n (remote_function_available_by_name rmc sys ctx name)
    unfolding remote_function_available_by_name
    remote_function_available_by_name-KeepsWith n ctx name h =
        locked-KeepsWith {0} rmc sys n ctx (λ c. done (function_available c name, c)) h λ c k. k

    pub remote_function_available-KeepsWith :
        (n : ℕ) (ctx : Context Pub Sub) (client_func : ℕ)
        → Sound rmc.max_payload n ctx
        → KeepsWith rmc.max_payload n (remote_function_available rmc sys ctx client_func)
    unfolding remote_function_available
    remote_function_available-KeepsWith n ctx client_func h =
        locked-KeepsWith {0} rmc sys n ctx _ h λ c k.
          Holds-option (λ r. Sound rmc.max_payload (n + 1) r.1)
            (find_client c.client_func client_func c.client_func_ind) (done (false, c)) _ k
            λ name. remote_function_available_by_name-KeepsWith (n + 1) c name k
