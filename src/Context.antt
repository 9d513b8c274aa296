-- ===== src/Context.antt =====
-- dstc_internal.h, `dstc_context_t`, and the support functions of dstc.c on it: the lock and the
-- outbound payload buffer. There is one context, `_dstc_default_context`: the type is opaque to
-- callers, so that every `ctx` argument is null or that one.
pub mod Buffer
pub mod Valid
pub mod Sound
use dstc.Base.{
  ℕ, zero, suc, ◌+◌, ◌-◌, ◌≤◌, ◌<◌, ◌≡◌, Bool, true, false, List, [], ◌++◌, Option, none, some,
  length, take, drop, replicate, ltb, if◌then◌else◌, Outcome, done, fault, ◌>>=◌,
}
use dstc.Wire.{u32}

-- SYMTAB_SIZE
abbrev pub symtab_size : ℕ
symtab_size = 128

-- The size of each `func_name` array.
abbrev pub name_size : ℕ
name_size = 256

-- A `func_name` holds the string in front of its terminator. A function pointer is a number, 0 for
-- the null pointer, and so is a `dstc_callback_t`.
pub record ServerFunc : Type 0 where
  pub func_name : List ℕ
  pub server_func : ℕ

pub record RemoteNode : Type 0 where
  pub node_id : ℕ
  pub func_name : List ℕ

pub record ClientFunc : Type 0 where
  pub func_name : List ℕ
  pub client_func : ℕ

pub record LocalCallback : Type 0 where
  pub callback : ℕ
  pub callback_ref : ℕ

abbrev pub no_server : ServerFunc
no_server = record { func_name = []; server_func = 0 }

abbrev pub no_remote : RemoteNode
no_remote = record { node_id = 0; func_name = [] }

abbrev pub no_client : ClientFunc
no_client = record { func_name = []; client_func = 0 }

abbrev pub no_callback : LocalCallback
no_callback = record { callback = 0; callback_ref = 0 }

-- The fields of the epoll build. `lock` counts how often the calling thread holds the recursive
-- mutex; `epoll_fd` is `none` at -1.
pub record Context (Pub Sub : Type 0) : Type 0 where
  pub lock : ℕ
  pub remote_node : List RemoteNode
  pub remote_node_ind : ℕ
  pub local_callback : List LocalCallback
  pub callback_ind : ℕ
  pub epoll_fd : Option ℕ
  pub client_func : List ClientFunc
  pub client_func_ind : ℕ
  pub client_callback_count : ℕ
  pub server_func : List ServerFunc
  pub server_func_ind : ℕ
  pub sub_ctx : Option Sub
  pub pub_ctx : Option Pub
  pub pub_buffer : List ℕ
  pub pub_buffer_ind : ℕ
  pub pub_is_buffering : Bool

-- `*p`, which faults at a null pointer.
abbrev pub deref {ℓ} : {A : Type ℓ} → Option A → Outcome A
deref none = fault
deref (some a) = done a

-- `strcpy` into a `func_name`: a string that does not fit with its terminator is written past it.
unfoldable pub copy_name : List ℕ → Outcome (List ℕ)
copy_name s = if ltb (length s) name_size then done s else fault

-- `memcpy(buf + off, src, length src)` inside one object.
unfoldable pub memcpy : List ℕ → ℕ → List ℕ → Outcome (List ℕ)
memcpy buf off src =
    if ltb (length buf) (off + length src)
    then fault
    else done (take off buf ++ (src ++ drop (off + length src) buf))

module _ {Pub Sub : Type 0} where
  -- `_dstc_default_context`, with RMC_MAX_PAYLOAD bytes of buffer
  unfoldable pub default_context : ℕ → Context Pub Sub
  default_context max_payload = record {
    lock = 0;
    remote_node = replicate symtab_size no_remote;
    remote_node_ind = 0;
    local_callback = replicate symtab_size no_callback;
    callback_ind = 0;
    epoll_fd = none;
    client_func = replicate symtab_size no_client;
    client_func_ind = 0;
    client_callback_count = 0;
    server_func = replicate symtab_size no_server;
    server_func_ind = 0;
    sub_ctx = none;
    pub_ctx = none;
    pub_buffer = replicate max_payload 0;
    pub_buffer_ind = 0;
    pub_is_buffering = false;
  }

  unfoldable pub context_initialized : Context Pub Sub → Bool
  context_initialized ctx = elim ctx.pub_ctx [ none ↦ false | some p ↦ true ]

  -- `pthread_mutex_lock` on a recursive mutex, by the thread that ends up with it.
  unfoldable pub lock_context : Context Pub Sub → Context Pub Sub
  lock_context ctx = record ctx { lock = ctx.lock + 1 }

  -- `pthread_mutex_unlock` by a thread without the mutex returns an error, which is not looked at.
  unfoldable pub unlock_context : Context Pub Sub → Context Pub Sub
  unlock_context ctx = record ctx { lock = ctx.lock - 1 }

  unfoldable pub payload_buffer_in_use : Context Pub Sub → ℕ
  payload_buffer_in_use ctx = ctx.pub_buffer_ind

  -- `sizeof(ctx->pub_buffer) - ctx->pub_buffer_ind`, where the index is never past the size.
  unfoldable pub payload_buffer_available : Context Pub Sub → ℕ
  payload_buffer_available ctx = u32 (length ctx.pub_buffer - ctx.pub_buffer_ind)

  -- The offset of the allocated bytes, or `none` for the null pointer.
  unfoldable pub payload_buffer_alloc : Context Pub Sub → ℕ → Option ℕ × Context Pub Sub
  unfolding payload_buffer_available payload_buffer_in_use
  payload_buffer_alloc ctx size = if ltb (payload_buffer_available ctx) size then (none, ctx) else (
    some (payload_buffer_in_use ctx),
    record ctx { pub_buffer_ind = u32 (ctx.pub_buffer_ind + size) },
  )

  unfoldable pub payload_buffer_empty : Context Pub Sub → Context Pub Sub
  payload_buffer_empty ctx = record ctx { pub_buffer_ind = 0 }

  -- The calls that wait in the buffer, as `_queue_pending_calls` would send them.
  abbrev pub pending : Context Pub Sub → List ℕ
  pending ctx = take ctx.pub_buffer_ind ctx.pub_buffer
