-- ===== src/Symtab/Remote/Laws.antt =====
-- The remote table of dstc.c as a set of pairs of a node and a function name.
use dstc.Base.{
  ℕ, zero, suc, ◌+◌, ◌≤◌, ◌<◌, ◌≡◌, ◌≢◌, refl, Bool, true, false, ◌&&◌, ◌||◌, not, List, length,
  arith, get_or, set, get_or-set, get_or-set_self, get_or-set_ne, length-set, ◌==◌, ==_refl,
  if◌then◌else◌, str_eq, str_eq_refl, str_eq_sound, done, exit, fault, ◌⊎◌, ◌↔◌, ltb, Bool-cases,
  inl, inr, ◌∙◌,
}
use dstc.Context.{Context, RemoteNode, no_remote, symtab_size, name_size, copy_name}
use dstc.Wire.{u32}
use dstc.Context.Valid.{IsValid}
use dstc.Symtab.Remote.{
  is_registered, clear_node, find_remote, add_remote, register_remote_function,
  unregister_remote_node, function_available,
}

-- Writing at or past the first free slot changes none of the slots in front of it.
is_registered-set :
    (table : List RemoteNode) (i k : ℕ) (v : RemoteNode) (n : ℕ) (s : List ℕ)
    → k ≤ i
    → is_registered (set table i v) n s k ≡ is_registered table n s k
unfolding is_registered
is_registered-set table i zero v n s h = refl
is_registered-set table i (suc k) v n s h = ground (
  arith,
  get_or-set_ne table i k v no_remote (omega arith),
  is_registered-set table i k v n s (omega arith),
)

-- Growing the table by one slot adds what that slot holds.
is_registered-push :
    (table : List RemoteNode) (i : ℕ) (v : RemoteNode) (n : ℕ) (s : List ℕ)
    → i < length table
    → is_registered (set table i v) n s (suc i)
      ≡ (n == v.node_id && str_eq s v.func_name || is_registered table n s i)
unfolding is_registered
is_registered-push table i v n s h =
    ground (
      arith,
      get_or-set_self table i v no_remote h,
      is_registered-set table i i v n s (omega arith),
    )

-- Which slots `clear_node` empties.
get_or-clear_node :
    (table : List RemoteNode) (m k i : ℕ)
    → k ≤ length table
    → get_or (clear_node table m k) i no_remote ≡ (
        if ltb i k && m == (get_or table i no_remote).node_id
        then no_remote
        else get_or table i no_remote)
unfolding clear_node
get_or-clear_node table m zero i h = ground arith
get_or-clear_node table m (suc k) i h =
    elim (Bool-cases (m == (get_or table k no_remote).node_id)) [
      | inl hit ↦ rw hit (
          ground (
            arith,
            get_or-set table k i no_remote no_remote h,
            length-set table k no_remote,
            get_or-clear_node (set table k no_remote) m k i,
          ))
      | inr miss ↦ rw miss (ground (arith, get_or-clear_node table m k i))
    ]

module _ {Pub Sub : Type 0} where
  -- The pairs in the table.
  abbrev pub supports : Context Pub Sub → ℕ → List ℕ → Bool
  supports ctx node_id name = is_registered ctx.remote_node node_id name ctx.remote_node_ind

  -- On a valid context a registration that returns adds its pair of a node and a name to those that
  -- the remote table supports, and no other pair.
  pub supports-register_remote_function :
      (max_payload : ℕ) (ctx : Context Pub Sub) (node_id : ℕ) (name : List ℕ)
      {ctx' : Context Pub Sub} (n : ℕ) (s : List ℕ)
      → IsValid max_payload ctx
      → register_remote_function ctx node_id name ≡ done ctx'
      → supports ctx' n s ≡ (n == node_id && str_eq s name || supports ctx n s)
  unfolding register_remote_function add_remote copy_name
  supports-register_remote_function max_payload ctx node_id name n s v e = ground (
    arith,
    is_registered-push ctx.remote_node ctx.remote_node_ind
        (record { node_id = node_id; func_name = name }) n s,
    str_eq_sound s name,
  )

-- Emptying the slots of a node takes its pairs out, and those of no other live node.
is_registered-clear_node :
    (table : List RemoteNode) (m k n : ℕ) (s : List ℕ) (ind : ℕ)
    → k ≤ length table
    → ind ≤ k
    → n ≢ 0
    → is_registered (clear_node table m k) n s ind ≡ (not (n == m) && is_registered table n s ind)
unfolding is_registered
is_registered-clear_node table m k n s zero hk hi hn = ground arith
is_registered-clear_node table m k n s (suc ind) hk hi hn = ground (
  arith,
  get_or-clear_node table m k ind hk,
  is_registered-clear_node table m k n s ind hk (omega arith) hn,
)

-- The search by name finds a slot exactly when some live node holds the name.
find_remote_sound :
    (table : List RemoteNode) (s : List ℕ) (ind : ℕ)
    → find_remote table s ind ≡ true
    → (n : ℕ) × (n ≢ 0) × (is_registered table n s ind ≡ true)
unfolding find_remote is_registered
find_remote_sound table s zero h = cc
find_remote_sound table s (suc ind) h =
    let slot = get_or table ind no_remote in
    elim (Bool-cases (not (slot.node_id == 0) && str_eq s slot.func_name)) [
      | inl hit ↦ (slot.node_id, ground arith, ground arith)
      | inr miss ↦
          let (n, live, found) = find_remote_sound table s ind (rw miss at h) in
          (n, live, ground arith)
    ]

find_remote_complete :
    (table : List RemoteNode) (n : ℕ) (s : List ℕ) (ind : ℕ)
    → n ≢ 0
    → is_registered table n s ind ≡ true
    → find_remote table s ind ≡ true
unfolding find_remote is_registered
find_remote_complete table n s zero hn h = cc
find_remote_complete table n s (suc ind) hn h =
    ground (arith, find_remote_complete table n s ind hn)

module _ {Pub Sub : Type 0} where
  -- On a valid context the unregistering of a node takes all of its functions out, and none of any
  -- other node with an id that is not 0.
  pub supports-unregister_remote_node :
      (max_payload : ℕ) (ctx : Context Pub Sub) (node_id n : ℕ) (s : List ℕ)
      → IsValid max_payload ctx
      → n ≢ 0
      → supports (unregister_remote_node ctx node_id) n s ≡ (not (n == node_id) && supports ctx n s)
  unfolding unregister_remote_node
  supports-unregister_remote_node max_payload ctx node_id n s v hn =
      is_registered-clear_node ctx.remote_node node_id ctx.remote_node_ind n s ctx.remote_node_ind
        (omega arith) (omega arith) hn

  -- A function is available exactly when a node with an id that is not 0 supports it.
  function_available_iff :
      (ctx : Context Pub Sub) (s : List ℕ)
      → (function_available ctx s ≡ true) ↔ ((n : ℕ) × (n ≢ 0) × (supports ctx n s ≡ true))
  unfolding function_available
  function_available_iff ctx s = (
    find_remote_sound ctx.remote_node s ctx.remote_node_ind,
    λ (n, hn, h). find_remote_complete ctx.remote_node n s ctx.remote_node_ind hn h,
  )

  -- A registration that returns keeps the invariant.
  pub register_remote_function-IsValid :
      (max_payload : ℕ) (ctx : Context Pub Sub) (node_id : ℕ) (name : List ℕ)
      {ctx' : Context Pub Sub}
      → IsValid max_payload ctx
      → register_remote_function ctx node_id name ≡ done ctx'
      → IsValid max_payload ctx'
  unfolding register_remote_function add_remote copy_name
  register_remote_function-IsValid max_payload ctx node_id name v e = ground (
    arith,
    length-set ctx.remote_node ctx.remote_node_ind (record { node_id = node_id; func_name = name }),
  )

  -- On a valid context a registration returns if the pair is known, or if a slot is free and the
  -- name fits its array; the pair is supported afterwards and the context is valid.
  register_remote_function_total :
      (max_payload : ℕ) (ctx : Context Pub Sub) (node_id : ℕ) (name : List ℕ)
      → IsValid max_payload ctx
      → (supports ctx node_id name ≡ true)
        ⊎ ((ctx.remote_node_ind < symtab_size) × (length name < name_size))
      → (ctx' : Context Pub Sub) × (register_remote_function ctx node_id name ≡ done ctx')
        × (supports ctx' node_id name ≡ true)
        × IsValid max_payload ctx'
  register_remote_function_total max_payload ctx node_id name v h =
      elim (Bool-cases (supports ctx node_id name)) [
        | inl known ↦ (ctx, unfold register_remote_function in ground arith, known, v)
        | inr new ↦
            let e = added new in
            (
              next,
              e,
              supports-register_remote_function max_payload ctx node_id name node_id name v e
                  ∙ rw (==_refl node_id, str_eq_refl name),
              register_remote_function-IsValid max_payload ctx node_id name v e,
            )
      ]
    where
      next : Context Pub Sub
      next = record ctx {
        remote_node =
            set ctx.remote_node ctx.remote_node_ind
              (record { node_id = node_id; func_name = name });
        remote_node_ind = u32 (ctx.remote_node_ind + 1);
      }

      added :
          supports ctx node_id name ≡ false → register_remote_function ctx node_id name ≡ done next
      added new = unfold register_remote_function add_remote copy_name in ground arith

  -- What fails: a full table ends the process, and a name too long for its array overruns it.
  pub register_remote_function_failures :
      (ctx : Context Pub Sub) (node_id : ℕ) (name : List ℕ)
      → supports ctx node_id name ≡ false
      → (ctx.remote_node_ind ≡ symtab_size → register_remote_function ctx node_id name ≡ exit 255)
        × (ctx.remote_node_ind < symtab_size
            → name_size ≤ length name
            → register_remote_function ctx node_id name ≡ fault)
  unfolding register_remote_function add_remote copy_name
  register_remote_function_failures ctx node_id name new =
      (λ full. ground arith, λ free long. ground arith)
