-- ===== src/Context/Valid.antt =====
-- The invariant of `dstc_context_t`: every table has its declared size, and every index stays within
-- its table.
use dstc.Base.{ℕ, ◌≤◌, ◌<◌, ◌≡◌, arith, length, length-replicate}
use dstc.Context.{
  Context, symtab_size, default_context, no_remote, no_callback, no_client, no_server,
}

module _ {Pub Sub : Type 0} (max_payload : ℕ) where
  pub record IsValid (ctx : Context Pub Sub) : Type 0 where
    pub remote_size : length ctx.remote_node ≡ symtab_size
    pub remote_in : ctx.remote_node_ind ≤ symtab_size
    pub callback_size : length ctx.local_callback ≡ symtab_size
    pub callback_in : ctx.callback_ind ≤ symtab_size
    pub client_size : length ctx.client_func ≡ symtab_size
    pub client_in : ctx.client_func_ind < symtab_size
    pub server_size : length ctx.server_func ≡ symtab_size
    pub server_in : ctx.server_func_ind < symtab_size
    pub buffer_size : length ctx.pub_buffer ≡ max_payload
    pub buffer_in : ctx.pub_buffer_ind ≤ max_payload

  pub default_context-IsValid : IsValid (default_context max_payload)
  unfolding default_context
  default_context-IsValid = record {
    remote_size = length-replicate symtab_size no_remote;
    remote_in = omega arith;
    callback_size = length-replicate symtab_size no_callback;
    callback_in = omega arith;
    client_size = length-replicate symtab_size no_client;
    client_in = omega arith;
    server_size = length-replicate symtab_size no_server;
    server_in = omega arith;
    buffer_size = length-replicate max_payload 0;
    buffer_in = omega arith;
  }
