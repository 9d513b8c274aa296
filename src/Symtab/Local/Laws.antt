-- ===== src/Symtab/Local/Laws.antt =====
-- The server table of dstc.c as a map from names to functions.
use dstc.Base.{
  ℕ, zero, suc, ◌≤◌, ◌<◌, ◌≡◌, refl, List, length, arith, set, get_or-set, length-set,
  if◌then◌else◌, str_eq, done,
}
use dstc.Context.{Context, ServerFunc, no_server, copy_name, lock_context, unlock_context}
use dstc.Context.Valid.{IsValid}
use dstc.Symtab.Local.{
  find_server, find_server_function, add_server, register_server_function, add_client,
  register_client_function,
}

find_server-set :
    (table : List ServerFunc) (i k : ℕ) (v : ServerFunc) (s : List ℕ)
    → k ≤ i
    → i < length table
    → find_server (set table i v) s k ≡ find_server table s k
unfolding find_server
find_server-set table i zero v s h hi = refl
find_server-set table i (suc k) v s h hi =
    ground
      (arith, get_or-set table i k v no_server hi, find_server-set table i k v s (omega arith) hi)

find_server-push :
    (table : List ServerFunc) (i : ℕ) (v : ServerFunc) (s : List ℕ)
    → i < length table
    → find_server (set table i v) s (suc i)
      ≡ (if str_eq v.func_name s then v.server_func else find_server table s i)
unfolding find_server
find_server-push table i v s h =
    ground
      (arith, get_or-set table i i v no_server h, find_server-set table i i v s (omega arith) h)

module _ {Pub Sub : Type 0} where
  -- On a valid context, after a registration that returns, the name finds the new function, and
  -- every other name what it found before.
  pub find_server_function-register_server_function :
      (max_payload : ℕ) (ctx : Context Pub Sub) (name : List ℕ) (server_func : ℕ)
      {ctx' : Context Pub Sub} (s : List ℕ)
      → IsValid max_payload ctx
      → register_server_function ctx name server_func ≡ done ctx'
      → find_server_function ctx' s
        ≡ (if str_eq name s then server_func else find_server_function ctx s)
  unfolding register_server_function add_server copy_name find_server_function lock_context
      unlock_context
  find_server_function-register_server_function max_payload ctx name server_func s v e = ground (
    arith,
    find_server-push ctx.server_func ctx.server_func_ind
        (record { func_name = name; server_func = server_func }) s,
  )

  -- On a valid context the registration of a server function, if it returns, keeps the context
  -- valid and the lock as often held as before.
  pub register_server_function-IsValid :
      (max_payload : ℕ) (ctx : Context Pub Sub) (name : List ℕ) (server_func : ℕ)
      {ctx' : Context Pub Sub}
      → IsValid max_payload ctx
      → register_server_function ctx name server_func ≡ done ctx'
      → IsValid max_payload ctx' × (ctx'.lock ≡ ctx.lock)
  unfolding register_server_function add_server copy_name lock_context unlock_context
  register_server_function-IsValid max_payload ctx name server_func v e = ground (
    arith,
    length-set ctx.server_func ctx.server_func_ind
        (record { func_name = name; server_func = server_func }),
  )

  -- A registration of a client function keeps the invariant, and gives the lock back.
  pub register_client_function-IsValid :
      (max_payload : ℕ) (ctx : Context Pub Sub) (name : List ℕ) (client_func : ℕ)
      {ctx' : Context Pub Sub}
      → IsValid max_payload ctx
      → register_client_function ctx name client_func ≡ done ctx'
      → IsValid max_payload ctx' × (ctx'.lock ≡ ctx.lock)
  unfolding register_client_function add_client copy_name lock_context unlock_context
  register_client_function-IsValid max_payload ctx name client_func v e = ground (
    arith,
    length-set ctx.client_func ctx.client_func_ind
        (record { func_name = name; client_func = client_func }),
  )
