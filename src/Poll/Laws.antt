-- ===== src/Poll/Laws.antt =====
-- poll.c, the table of descriptors as a finite map: poll_add and poll_remove.
use dstc.Base.{
  ℕ, ◌+◌, ◌-◌, ◌≤◌, ◌<◌, ◌≡◌, refl, List, [], ◌∷◌, Option, none, some, arith, length, get_or, set,
  get_or-set, length-set, ◌==◌, if◌then◌else◌, done, Option-cases, inl, inr,
}
use dstc.Epoll.{Action}
use dstc.Poll.{
  PollElem, free_elem, no_events, Uthash, PollContext, find_free, lock, unlock, elem_at, fill_elem,
  add_unknown, poll_add, remove_known, poll_remove,
}

-- What uthash.h promises of a key that is added while it is absent, and of the deletion of an element
-- that has one key.
pub record HashLaws {H : Type 0} (hash : Uthash H) : Type 0 where
  pub find-add :
      (h : H) (k i k' : ℕ)
      → hash.find h k ≡ none
      → hash.find (hash.add h k i) k' ≡ (if k == k' then some i else hash.find h k')
  pub find-del :
      (h : H) (k i k' : ℕ)
      → hash.find h k ≡ some i
      → ((k'' : ℕ) → hash.find h k'' ≡ some i → k'' ≡ k)
      → hash.find (hash.del h i) k' ≡ (if k == k' then none else hash.find h k')

unfoldable pub elem_of : List PollElem → Option ℕ → Option PollElem
elem_of elems none = none
elem_of elems (some i) = some (get_or elems i free_elem)

find_free_lem :
    (elems : List PollElem) (ind : ℕ) {i : ℕ}
    → find_free elems ind ≡ some i
    → (ind ≤ i) × (i - ind < length elems) × ((get_or elems (i - ind) free_elem).fd ≡ none)
unfolding find_free
find_free_lem [] ind h = cc
find_free_lem (e ∷ elems) ind {i} h = elim (Option-cases e.fd) [
  | inl free ↦ ground (arith, free)
  | inr (fd, used) ↦
      let later = find_free_lem elems (ind + 1) (rw used at h) in ground (arith, later)
]

module _ {H : Type 0} (hash : Uthash H) (laws : HashLaws hash) where
  watched-add :
      (elems : List PollElem) (h : H) (d i d' : ℕ) (e : PollElem)
      → hash.find h d ≡ none
      → (i < length elems) × ((get_or elems i free_elem).fd ≡ none)
      → (hash.find h d' ≡ some i → (get_or elems i free_elem).fd ≡ some d')
      → elem_of (set elems i e) (hash.find (hash.add h d i) d')
        ≡ (if d == d' then some e else elem_of elems (hash.find h d'))
  unfolding elem_of
  watched-add elems h d i d' e fresh free known =
      rw (laws.find-add h d i d' fresh) (elim (Option-cases (hash.find h d')) [
        | inl none_there ↦ rw none_there (ground (arith, get_or-set elems i i e free_elem))
        | inr (j, there) ↦ rw there (
            ground (
              arith,
              get_or-set elems i i e free_elem,
              get_or-set elems i j e free_elem,
              known,
              there,
            ))
      ])

  valid-add :
      (elems : List PollElem) (h : H) (d i d' j : ℕ) (e : PollElem)
      → hash.find h d ≡ none
      → (i < length elems) × ((get_or elems i free_elem).fd ≡ none)
      → e.fd ≡ some d
      → (hash.find h d' ≡ some j → (j < length elems) × ((get_or elems j free_elem).fd ≡ some d'))
      → hash.find (hash.add h d i) d' ≡ some j
      → (j < length (set elems i e)) × ((get_or (set elems i e) j free_elem).fd ≡ some d')
  valid-add elems h d i d' j e fresh spot own known found =
      let m = rw (laws.find-add h d i d' fresh) at found in
      ground (arith, m, get_or-set elems i j e free_elem, length-set elems i e, known)

  valid-del :
      (elems : List PollElem) (h : H) (d i d' j : ℕ) (e : PollElem)
      → hash.find h d ≡ some i
      → i < length elems
      → ((k : ℕ) → hash.find h k ≡ some i → k ≡ d)
      → (hash.find h d' ≡ some j → (j < length elems) × ((get_or elems j free_elem).fd ≡ some d'))
      → hash.find (hash.del h i) d' ≡ some j
      → (j < length (set elems i e)) × ((get_or (set elems i e) j free_elem).fd ≡ some d')
  valid-del elems h d i d' j e there bound alone known found =
      let m = rw (laws.find-del h d i d' there alone) at found in
      ground (arith, m, get_or-set elems i j e free_elem, length-set elems i e, known, alone d')

  watched-del :
      (elems : List PollElem) (h : H) (d i d' : ℕ) (e : PollElem)
      → hash.find h d ≡ some i
      → i < length elems
      → ((k : ℕ) → hash.find h k ≡ some i → k ≡ d)
      → elem_of (set elems i e) (hash.find (hash.del h i) d')
        ≡ (if d == d' then none else elem_of elems (hash.find h d'))
  unfolding elem_of
  watched-del elems h d i d' e there bound alone =
      rw (laws.find-del h d i d' there alone) (elim (Option-cases (hash.find h d')) [
        | inl none_there ↦ rw none_there (ground arith)
        | inr (j, other) ↦
            rw other (ground (arith, get_or-set elems i j e free_elem, alone d', other))
      ])

module _ {Pub Sub H : Type 0} (hash : Uthash H) where
  -- Each descriptor that the hash table knows is that of the element that it is mapped to.
  unfoldable pub IsPollValid : PollContext Pub Sub H → Type 0
  IsPollValid ctx =
      (d i : ℕ)
      → hash.find ctx.poll_hash d ≡ some i
      → (i < length ctx.poll_elem_array) × ((elem_at hash ctx i).fd ≡ some d)

  -- What is watched for a descriptor.
  unfoldable pub watched : PollContext Pub Sub H → ℕ → Option PollElem
  watched ctx d = elem_of ctx.poll_elem_array (hash.find ctx.poll_hash d)

module _ {Pub Sub H : Type 0} (hash : Uthash H) (laws : HashLaws hash) where
  -- Where the hash table keeps its laws and the table of descriptors is valid, poll_add, if it
  -- returns, makes the descriptor watched with the given action and user data, and changes what is
  -- watched for no other.
  pub watched-poll_add :
      (ctx : PollContext Pub Sub H) (descriptor user_data : ℕ) (action : Action)
      {ctx' : PollContext Pub Sub H} (d : ℕ)
      → IsPollValid hash ctx
      → poll_add hash ctx descriptor user_data action ≡ done ctx'
      → watched hash ctx' d ≡ (
          if descriptor == d
          then some (record { fd = some descriptor; events = action; user_data = user_data })
          else watched hash ctx d)
  unfolding poll_add add_unknown fill_elem watched IsPollValid elem_at lock unlock
  watched-poll_add ctx descriptor user_data action {ctx'} d valid e =
      let elems = ctx.poll_elem_array in
      elim (Option-cases (hash.find ctx.poll_hash descriptor)) [
        | inr (k, there) ↦ absurd (let m = rw there at e in cc)
        | inl fresh ↦ elim (Option-cases (find_free elems 0)) [
          | inl full ↦ absurd (let m = rw (fresh, full) at e in cc)
          | inr (i, found) ↦
              let free = find_free_lem elems 0 found in
              let m = rw (fresh, found) at e in
              let new : PollElem = record {
                fd = some descriptor;
                events = action;
                user_data = user_data;
              } in
              let spot : (i < length elems) × ((get_or elems i free_elem).fd ≡ none) =
                ground (arith, free) in
              let known : hash.find ctx.poll_hash d ≡ some i
                  → (get_or elems i free_elem).fd ≡ some d =
                λ k. (valid d i k).1 in
              let after =
                watched-add hash laws elems ctx.poll_hash descriptor i d new fresh spot known in
              ground (arith, m, after)
        ]
      ]

  -- Where the hash table keeps its laws and the table of descriptors is valid, poll_remove, if it
  -- returns, makes the descriptor watched no more, and changes what is watched for no other.
  pub watched-poll_remove :
      (ctx : PollContext Pub Sub H) (descriptor : ℕ) {ctx' : PollContext Pub Sub H} (d : ℕ)
      → IsPollValid hash ctx
      → poll_remove hash ctx descriptor ≡ done ctx'
      → watched hash ctx' d ≡ (if descriptor == d then none else watched hash ctx d)
  unfolding poll_remove remove_known watched IsPollValid elem_at lock unlock
  watched-poll_remove ctx descriptor {ctx'} d valid e =
      let elems = ctx.poll_elem_array in
      elim (Option-cases (hash.find ctx.poll_hash descriptor)) [
        | inl unknown ↦ absurd (let m = rw unknown at e in cc)
        | inr (i, there) ↦
            let m = rw there at e in
            let gone : PollElem = record (get_or elems i free_elem) {
              fd = none;
              events = no_events;
            } in
            let here = valid descriptor i there in
            let alone : (k : ℕ) → hash.find ctx.poll_hash k ≡ some i → k ≡ descriptor =
              λ k other. let there' = (valid k i other).1 in ground (arith, here, there') in
            let after =
              watched-del hash laws elems ctx.poll_hash descriptor i d gone there here.0 alone in
            ground (arith, m, after)
      ]

  -- Where the hash table keeps its laws, poll_add, if it returns, keeps the table of descriptors
  -- valid: each descriptor that the hash table knows is that of the element it is mapped to.
  pub poll_add-IsPollValid :
      (ctx : PollContext Pub Sub H) (descriptor user_data : ℕ) (action : Action)
      {ctx' : PollContext Pub Sub H}
      → IsPollValid hash ctx
      → poll_add hash ctx descriptor user_data action ≡ done ctx'
      → IsPollValid hash ctx'
  unfolding poll_add add_unknown fill_elem IsPollValid elem_at lock unlock
  poll_add-IsPollValid ctx descriptor user_data action {ctx'} valid e d j =
      let elems = ctx.poll_elem_array in
      elim (Option-cases (hash.find ctx.poll_hash descriptor)) [
        | inr (k, there) ↦ absurd (let m = rw there at e in cc)
        | inl fresh ↦ elim (Option-cases (find_free elems 0)) [
          | inl full ↦ absurd (let m = rw (fresh, full) at e in cc)
          | inr (i, found) ↦
              let free = find_free_lem elems 0 found in
              let m = rw (fresh, found) at e in
              let new : PollElem = record {
                fd = some descriptor;
                events = action;
                user_data = user_data;
              } in
              let spot : (i < length elems) × ((get_or elems i free_elem).fd ≡ none) =
                ground (arith, free) in
              let after =
                valid-add hash laws elems ctx.poll_hash descriptor i d j new fresh spot refl
                  (valid d j) in
              ground (arith, m, after)
        ]
      ]

  -- Removing a descriptor, if it returns, keeps the table valid.
  pub poll_remove-IsPollValid :
      (ctx : PollContext Pub Sub H) (descriptor : ℕ) {ctx' : PollContext Pub Sub H}
      → IsPollValid hash ctx
      → poll_remove hash ctx descriptor ≡ done ctx'
      → IsPollValid hash ctx'
  unfolding poll_remove remove_known IsPollValid elem_at lock unlock
  poll_remove-IsPollValid ctx descriptor {ctx'} valid e d j =
      let elems = ctx.poll_elem_array in
      elim (Option-cases (hash.find ctx.poll_hash descriptor)) [
        | inl unknown ↦ absurd (let m = rw unknown at e in cc)
        | inr (i, there) ↦
            let m = rw there at e in
            let gone : PollElem = record (get_or elems i free_elem) {
              fd = none;
              events = no_events;
            } in
            let here = valid descriptor i there in
            let alone : (k : ℕ) → hash.find ctx.poll_hash k ≡ some i → k ≡ descriptor =
              λ k other. let there' = (valid k i other).1 in ground (arith, here, there') in
            let after =
              valid-del hash laws elems ctx.poll_hash descriptor i d j gone there here.0 alone
                (valid d j) in
            ground (arith, m, after)
      ]
