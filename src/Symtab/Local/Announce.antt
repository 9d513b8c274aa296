-- ===== src/Symtab/Local/Announce.antt =====
-- Announcing a server function: the control message that one node sends and another registers, and
-- what a disconnect takes back.
use dstc.Base.{
  ℕ, zero, suc, ◌+◌, ◌-◌, ◌^◌, ◌≤◌, ◌<◌, ◌≡◌, ◌≢◌, refl, sym, ap, ◌&&◌, List, [], ◌∷◌, ◌++◌, some,
  arith, length, replicate, take, take-skip, take-append, drop-append, le→ltb, ◌==◌, not, done,
  ◌>>=◌,
}
use dstc.Wire.{le_bytes}
use dstc.Wire.Codec.{length-le_bytes, le_value-le_bytes, NoNul, c_string-append}
use dstc.Rmc.{Rmc}
use dstc.Context.{Context, lock_context, unlock_context}
use dstc.Context.Valid.{IsValid}
use dstc.Symtab.Remote.{
  register_remote_function, unregister_remote_node, subscriber_control_message_cb,
  subscriber_disconnect_cb,
}
use dstc.Symtab.Remote.Laws.{supports, supports-unregister_remote_node}
use dstc.Symtab.Local.{control_message}

take-replicate : (n k z : ℕ) → k ≤ n → take k (replicate n z) ≡ replicate k z
take-replicate zero zero z h = refl
take-replicate zero (suc k) z h = absurd (omega arith)
take-replicate (suc n) zero z h = refl
take-replicate (suc n) (suc k) z h = ap (◌∷◌ z) (take-replicate n k z (omega arith))

-- The message holds the node, the name, its terminator and one byte of padding.
pub control_message_lem :
    (node_id : ℕ) (name : List ℕ)
    → length name < 255
    → control_message node_id name ≡ done (le_bytes 4 node_id ++ (name ++ 0 ∷ 0 ∷ []))
unfolding control_message
control_message_lem node_id name short =
    let id_size = length-le_bytes 4 node_id in
    rw (
      le→ltb 260 (4 + 1 + length name + 1) (omega arith),
      take-skip (le_bytes 4 node_id) (name ++ replicate (256 - length name) 0) (length name + 2)
          (4 + 1 + length name + 1) (omega arith),
      take-skip name (replicate (256 - length name) 0) 2 (length name + 2) refl,
      take-replicate (256 - length name) 2 0 (omega arith),
    )

module _ {Pub Sub : Type 0} where
  -- For a node id below 2^32 and a name without a terminator inside, of fewer than 255 bytes: the
  -- node that receives the control message made for them registers the function for that node,
  -- under the lock.
  pub subscriber_control_message_cb-control_message :
      (ctx : Context Pub Sub) (node_id : ℕ) (name : List ℕ)
      → node_id < 2 ^ 32
      → NoNul name
      → length name < 255
      → (control_message node_id name >>= subscriber_control_message_cb ctx) ≡ (
          register_remote_function (lock_context ctx) node_id name >>= λ ctx.
          done (unlock_context ctx))
  unfolding subscriber_control_message_cb
  subscriber_control_message_cb-control_message ctx node_id name word clean short =
      let id = le_bytes 4 node_id in
      let id_size = length-le_bytes 4 node_id in
      let tail = name ++ 0 ∷ 0 ∷ [] in
      rw (
        control_message_lem node_id name short,
        drop-append id tail 4 (sym id_size),
        take-append id tail 4 (sym id_size),
        c_string-append name (0 ∷ []) clean,
        le_value-le_bytes 4 node_id word,
      )

  -- On a valid context that is set up the disconnect callback returns and takes out the functions
  -- of the node itself, and not of the one that has gone: those of every other node with an id that
  -- is not 0 stay.
  pub supports-subscriber_disconnect_cb :
      (rmc : Rmc Pub Sub) (ctx : Context Pub Sub) {pub_ctx : Pub} (n : ℕ) (s : List ℕ)
      → IsValid rmc.max_payload ctx
      → ctx.pub_ctx ≡ some pub_ctx
      → n ≢ 0
      → (ctx' : Context Pub Sub) × (subscriber_disconnect_cb rmc ctx ≡ done ctx')
        × (supports ctx' n s ≡ (not (n == rmc.pub_node_id pub_ctx) && supports ctx n s))
  unfolding subscriber_disconnect_cb lock_context unlock_context unregister_remote_node
  supports-subscriber_disconnect_cb rmc ctx {pub_ctx} n s v up live = (
    unlock_context (unregister_remote_node (lock_context ctx) (rmc.pub_node_id pub_ctx)),
    rw up,
    supports-unregister_remote_node rmc.max_payload ctx (rmc.pub_node_id pub_ctx) n s v live,
  )
