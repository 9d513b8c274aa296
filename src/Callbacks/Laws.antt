-- ===== src/Callbacks/Laws.antt =====
-- The callback table of dstc.c as a multiset: how often a pair of a reference and a function is
-- active.
use dstc.Base.{
  ℕ, ◌+◌, ◌≤◌, ◌<◌, ◌≡◌, ◌≢◌, refl, ap, ◌∙◌, ◌&&◌, ◌⊎◌, inl, inr, List, none, some, arith, length,
  length-set, get_or, set, get_or-set, ◌==◌, if◌then◌else◌, Option-cases, done,
}
use dstc.Wire.{u32}
use dstc.Context.{Context, LocalCallback, no_callback, symtab_size}
use dstc.Context.Valid.{IsValid}
use dstc.Callbacks.{
  free_slot, find_ref, find_func, fill_slot, activate_callback, take_slot, find_callback_by_ref,
  find_callback_by_func,
}
use dstc.Callbacks.Slots.{
  hit, count, count-set, count-set_outside, count-suc, free_slot_lem, find_ref_sound,
  find_func_sound, find_ref-none, count-find_func,
}

module _ {Pub Sub : Type 0} where
  -- How often the pair of the reference and the callback is active.
  abbrev pub active : Context Pub Sub → ℕ → ℕ → ℕ
  active ctx r c = count ctx.local_callback r c ctx.callback_ind

  module _ (max_payload : ℕ) (ctx : Context Pub Sub) (v : IsValid max_payload ctx) where
    -- Filling the free slot adds the pair once, and keeps every other pair with a live callback.
    active-fill_slot :
        (callback_ref callback : ℕ) {ctx' : Context Pub Sub} (r c : ℕ)
        → c ≢ 0
        → fill_slot ctx (free_slot ctx.local_callback 0 ctx.callback_ind) callback_ref callback
          ≡ done ctx'
        → active ctx' r c ≡ (if r == callback_ref && c == callback then 1 else 0) + active ctx r c
    unfolding fill_slot count
    active-fill_slot callback_ref callback r c hc e =
        let slot : LocalCallback = record { callback = callback; callback_ref = callback_ref } in
        let table = ctx.local_callback in
        let n = ctx.callback_ind in
        let ind = free_slot table 0 n in
        elim (free_slot_lem table 0 n).1 [
          | inl end ↦ ground (
            arith,
            count-suc (set table ind slot) r c n (u32 (n + 1)),
            count-set_outside table ind n slot r c,
            get_or-set table ind n slot no_callback,
          )
          | inr (inside, free) ↦ ground (arith, count-set table ind n slot r c)
        ]

    pub fill_slot-IsValid :
        (callback_ref callback : ℕ) {ctx' : Context Pub Sub}
        → fill_slot ctx (free_slot ctx.local_callback 0 ctx.callback_ind) callback_ref callback
          ≡ done ctx'
        → IsValid max_payload ctx'
    unfolding fill_slot
    fill_slot-IsValid callback_ref callback e = ground (
      arith,
      free_slot_lem ctx.local_callback 0 ctx.callback_ind,
      length-set ctx.local_callback (free_slot ctx.local_callback 0 ctx.callback_ind)
          (record { callback = callback; callback_ref = callback_ref }),
    )

    -- Taking a slot in use removes the pair that it holds, once.
    active-take_slot :
        (j r c : ℕ)
        → c ≢ 0
        → j < ctx.callback_ind
        → active (take_slot ctx (some j)).1 r c + hit (get_or ctx.local_callback j no_callback) r c
          ≡ active ctx r c
    unfolding take_slot
    active-take_slot j r c hc hj =
        ground (arith, count-set ctx.local_callback j ctx.callback_ind no_callback r c hj)

    -- On a valid context a look-up takes one activation away, that of the reference with the
    -- function that it returns, and none of a live callback if it returns the null pointer.
    active-find_callback_by_ref :
        (callback_ref r c : ℕ)
        → c ≢ 0
        → let (found, ctx') = find_callback_by_ref ctx callback_ref in
          active ctx' r c + (if r == callback_ref && c == found then 1 else 0) ≡ active ctx r c
    unfolding find_callback_by_ref
    active-find_callback_by_ref callback_ref r c hc =
        let n = ctx.callback_ind in
        elim (Option-cases (find_ref ctx.local_callback callback_ref 0 n)) [
          | inl missing ↦ rw missing (unfold take_slot in ground arith)
          | inr (j, found) ↦ rw found (
              unfold take_slot in
              ground (
                arith,
                find_ref_sound ctx.local_callback callback_ref 0 n j found,
                count-set ctx.local_callback j n no_callback r c,
              ))
        ]

    -- On a valid context the search for a callback that is not null, by which it is cancelled,
    -- either finds it active under no reference and changes nothing, or returns it and takes one of
    -- its activations away, under some reference, and no other activation of a live callback.
    active-find_callback_by_func :
        (func c : ℕ)
        → c ≢ 0
        → func ≢ 0
        → let (found, ctx') = find_callback_by_func ctx func in
          ((found ≡ 0) × ((r : ℕ) → active ctx r func ≡ 0) × (ctx' ≡ ctx))
          ⊎ ((ref : ℕ) × (found ≡ func)
              × ((r : ℕ)
                  → active ctx' r c + (if r == ref && c == func then 1 else 0) ≡ active ctx r c))
    unfolding find_callback_by_func
    active-find_callback_by_func func c hc hf =
        let n = ctx.callback_ind in
        let table = ctx.local_callback in
        elim (Option-cases (find_func table func 0 n)) [
          | inl missing ↦
              rw missing (
                unfold take_slot in inl (refl, (λ r. count-find_func table r func n missing), refl))
          | inr (j, found) ↦ rw found (
              unfold take_slot in
              inr (
                (get_or table j no_callback).callback_ref,
                (find_func_sound table func 0 n j found).1,
                λ r. ground (
                  arith,
                  find_func_sound table func 0 n j found,
                  count-set table j n no_callback r c,
                ),
              ))
        ]

    -- An activation of a callback that is not null, on a valid context, which returns, returns its
    -- reference, makes its pair active once more, leaves every other pair with a live callback
    -- alone, and keeps the context valid.
    pub active-activate_callback :
        (callback_ref callback r c : ℕ) {k : ℕ} {ctx' : Context Pub Sub}
        → callback ≢ 0
        → c ≢ 0
        → activate_callback ctx callback_ref callback ≡ done (k, ctx')
        → (k ≡ callback_ref)
          × (active ctx' r c
              ≡ (if r == callback_ref && c == callback then 1 else 0) + active ctx r c)
          × IsValid max_payload ctx'
    unfolding activate_callback
    active-activate_callback callback_ref callback r c {k} {ctx'} hcb hc e =
        let filled : fill_slot ctx (free_slot ctx.local_callback 0 ctx.callback_ind) callback_ref
              callback
            ≡ done ctx' =
          ground arith in
        (
          ground arith,
          active-fill_slot callback_ref callback r c hc filled,
          fill_slot-IsValid callback_ref callback filled,
        )

    -- Once a slot is free the activation returns.
    pub activate_callback_total :
        (callback_ref callback : ℕ)
        → callback ≢ 0
        → ctx.callback_ind < symtab_size
        → (ctx' : Context Pub Sub) × (activate_callback ctx callback_ref callback
            ≡ done (callback_ref, ctx'))
    unfolding activate_callback fill_slot
    activate_callback_total callback_ref callback hcb room =
        let table = ctx.local_callback in
        let ind = free_slot table 0 ctx.callback_ind in
        (
          record ctx {
            local_callback =
                set table ind (record { callback = callback; callback_ref = callback_ref });
            callback_ind =
                if ind == ctx.callback_ind then u32 (ctx.callback_ind + 1) else ctx.callback_ind;
          },
          ground (arith, free_slot_lem table 0 ctx.callback_ind),
        )

-- A reference that no slot holds is found in the one slot that it is written to.
find_ref-set_fresh :
    (table : List LocalCallback) (n m i : ℕ) (slot : LocalCallback) (r : ℕ)
    → find_ref table r 0 n ≡ none
    → i < m
    → m ≤ length table
    → ((m ≡ n) ⊎ ((i ≡ n) × (m ≡ n + 1)))
    → slot.callback_ref ≡ r
    → find_ref (set table i slot) r 0 m ≡ some i
find_ref-set_fresh table n m i slot r fresh hi hm hmn hs =
    elim (Option-cases (find_ref (set table i slot) r 0 m)) [
      | inl missing ↦ absurd (
          ground (
            arith,
            find_ref-none (set table i slot) r 0 m i missing,
            get_or-set table i i slot no_callback,
          ))
      | inr (j, found) ↦
          found
          ∙ ap some (
              ground (
                arith,
                find_ref_sound (set table i slot) r 0 m j found,
                get_or-set table i j slot no_callback,
                find_ref-none table r 0 n j fresh,
              ))
    ]

-- And in none, once that slot is free again.
find_ref-set_free :
    (table : List LocalCallback) (n m i : ℕ) (slot : LocalCallback) (r : ℕ)
    → find_ref table r 0 n ≡ none
    → i < m
    → m ≤ length table
    → ((m ≡ n) ⊎ ((i ≡ n) × (m ≡ n + 1)))
    → r ≢ 0
    → find_ref (set (set table i slot) i no_callback) r 0 m ≡ none
find_ref-set_free table n m i slot r fresh hi hm hmn hr =
    let cleared = set (set table i slot) i no_callback in
    elim (Option-cases (find_ref cleared r 0 m)) [
      | inl missing ↦ missing
      | inr (j, found) ↦ absurd (
          ground (
            arith,
            find_ref_sound cleared r 0 m j found,
            length-set table i slot,
            get_or-set (set table i slot) i j no_callback no_callback,
            get_or-set table i j slot no_callback,
            find_ref-none table r 0 n j fresh,
          ))
    ]

module _ {Pub Sub : Type 0} where
  -- A callback is a one-shot: once it was activated on a valid context, with a function and a
  -- reference that are not null and where no slot had this reference, the first look-up of the
  -- reference returns the function and the second one the null pointer.
  pub find_callback_by_ref-activate_callback :
      (max_payload : ℕ) (ctx : Context Pub Sub) (callback_ref callback : ℕ) {k : ℕ}
      {ctx' : Context Pub Sub}
      → IsValid max_payload ctx
      → callback ≢ 0
      → callback_ref ≢ 0
      → find_ref ctx.local_callback callback_ref 0 ctx.callback_ind ≡ none
      → activate_callback ctx callback_ref callback ≡ done (k, ctx')
      → ((find_callback_by_ref ctx' callback_ref).0 ≡ callback)
        × ((find_callback_by_ref (find_callback_by_ref ctx' callback_ref).1 callback_ref).0 ≡ 0)
  unfolding activate_callback fill_slot find_callback_by_ref take_slot
  find_callback_by_ref-activate_callback max_payload ctx callback_ref callback {k} {ctx'} v hcb hr
        fresh e =
      let table = ctx.local_callback in
      let n = ctx.callback_ind in
      let i = free_slot table 0 n in
      let slot : LocalCallback = record { callback = callback; callback_ref = callback_ref } in
      let written : (ctx'.local_callback ≡ set table i slot)
          × (i < ctx'.callback_ind)
          × (ctx'.callback_ind ≤ length table)
          × ((ctx'.callback_ind ≡ n) ⊎ ((i ≡ n) × (ctx'.callback_ind ≡ n + 1))) =
        ground (arith, free_slot_lem table 0 n) in
      let found =
        find_ref-set_fresh table n ctx'.callback_ind i slot callback_ref fresh written.1 written.2
          written.3 refl in
      let gone =
        find_ref-set_free table n ctx'.callback_ind i slot callback_ref fresh written.1 written.2
          written.3 hr in
      rw (written.0, found)
        (ground (arith, get_or-set table i i slot no_callback), rw (gone, take_slot))
