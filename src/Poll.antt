-- ===== src/Poll.antt =====
-- poll.c, the build without epoll: a table of the descriptors that rmc watches, found by a hash table
-- from the descriptor to the element. The hash table (uthash.h) is vendored code and a parameter.
pub mod Laws
pub mod Hits
pub mod Setup
pub mod Vector
use dstc.Base.{
  ℕ, zero, suc, ◌+◌, ◌≡◌, ◌≢◌, Bool, true, false, ◌&&◌, ◌||◌, not, List, [], ◌∷◌, Option, none,
  some, get_or, set, length, replicate, map, ltb, ◌==◌, if◌then◌else◌, Outcome, done, exit,
  out_of_fuel, ◌>>=◌,
}
use dstc.Rmc.{Rmc, System}
use dstc.Context.{Context, lock_context, unlock_context}
use dstc.Setup.{etime, locked}
use dstc.Epoll.{Event, Action, same_action, Io, process_epollin, process_epollout}
use dstc.Epoll.UserData.{event_user_data}

-- A `poll_elem_t`; its `pfd.fd` is `none` at -1, and its `pfd.revents` is always 0. A `struct pollfd`
-- that is handed to poll(2) is the same without the user data.
pub record PollElem : Type 0 where
  pub fd : Option ℕ
  pub events : Action
  pub user_data : ℕ

abbrev pub no_events : Action
no_events = record { poll_read = false; poll_write = false }

abbrev pub free_elem : PollElem
free_elem = record { fd = none; events = no_events; user_data = 0 }

-- HASH_FIND_INT, HASH_ADD_INT and HASH_DEL of uthash.h, on a table that names elements by their index
-- in `poll_elem_array`, and the order in which `hh.next` goes through them.
pub record Uthash (H : Type 0) : Type 0 where
  pub empty : H
  pub find : H → ℕ → Option ℕ
  pub add : H → ℕ → ℕ → H
  pub del : H → ℕ → H
  pub elems : H → List ℕ

-- A `dstc_context_t` of this build: `base` has the fields of both builds, and an `epoll_fd` that
-- nothing reads.
pub record PollContext (Pub Sub H : Type 0) : Type 0 where
  pub base : Context Pub Sub
  pub poll_elem_array : List PollElem
  pub poll_hash : H

-- `find_free_poll_elem_index`, from the index `ind` on.
unfoldable pub find_free : List PollElem → ℕ → Option ℕ
find_free [] ind = none
find_free (e ∷ elems) ind = elim e.fd [ none ↦ some ind | some fd ↦ find_free elems (ind + 1) ]

module _ {Pub Sub H : Type 0} (hash : Uthash H) where
  unfoldable pub lock : PollContext Pub Sub H → PollContext Pub Sub H
  lock ctx = record ctx { base = lock_context ctx.base }

  unfoldable pub unlock : PollContext Pub Sub H → PollContext Pub Sub H
  unlock ctx = record ctx { base = unlock_context ctx.base }

  unfoldable pub elem_at : PollContext Pub Sub H → ℕ → PollElem
  elem_at ctx i = get_or ctx.poll_elem_array i free_elem

  -- The element found for a new descriptor, if any, is filled and added to the hash table.
  unfoldable pub fill_elem :
      PollContext Pub Sub H → ℕ → ℕ → Action → Option ℕ → Outcome (PollContext Pub Sub H)
  fill_elem ctx descriptor user_data action none = exit 255
  fill_elem ctx descriptor user_data action (some i) = done (record ctx {
    poll_elem_array =
        set ctx.poll_elem_array i
          (record { fd = some descriptor; events = action; user_data = user_data });
    poll_hash = hash.add ctx.poll_hash descriptor i;
  })

  unfoldable pub add_unknown :
      PollContext Pub Sub H → ℕ → ℕ → Action → Option ℕ → Outcome (PollContext Pub Sub H)
  add_unknown ctx descriptor user_data action (some i) = exit 255
  add_unknown ctx descriptor user_data action none =
      fill_elem ctx descriptor user_data action (find_free ctx.poll_elem_array 0)

  unfoldable pub poll_add : PollContext Pub Sub H → ℕ → ℕ → Action → Outcome (PollContext Pub Sub H)
  poll_add ctx descriptor user_data action = do
    ctx ← add_unknown (lock ctx) descriptor user_data action (hash.find ctx.poll_hash descriptor)
    done (unlock ctx)

  unfoldable pub poll_add_sub :
      PollContext Pub Sub H → ℕ → ℕ → Action → Outcome (PollContext Pub Sub H)
  poll_add_sub ctx descriptor index action =
      poll_add ctx descriptor (event_user_data index false) action

  unfoldable pub poll_add_pub :
      PollContext Pub Sub H → ℕ → ℕ → Action → Outcome (PollContext Pub Sub H)
  poll_add_pub ctx descriptor index action =
      poll_add ctx descriptor (event_user_data index true) action

  unfoldable pub modify_known :
      PollContext Pub Sub H → Action → Option ℕ → Outcome (PollContext Pub Sub H)
  modify_known ctx action none = exit 255
  modify_known ctx action (some i) = done (record ctx {
    poll_elem_array = set ctx.poll_elem_array i (record (elem_at ctx i) { events = action });
  })

  -- The user data is only logged here.
  unfoldable pub poll_modify :
      PollContext Pub Sub H → ℕ → Action → Action → Outcome (PollContext Pub Sub H)
  poll_modify ctx descriptor old_action new_action =
      if same_action old_action new_action
      then done ctx
      else modify_known (lock ctx) new_action (hash.find ctx.poll_hash descriptor)
        >>= (λ c. done (unlock c))

  unfoldable pub remove_known : PollContext Pub Sub H → Option ℕ → Outcome (PollContext Pub Sub H)
  remove_known ctx none = exit 255
  remove_known ctx (some i) = done (record ctx {
    poll_elem_array =
        set ctx.poll_elem_array i (record (elem_at ctx i) { fd = none; events = no_events });
    poll_hash = hash.del ctx.poll_hash i;
  })

  unfoldable pub poll_remove : PollContext Pub Sub H → ℕ → Outcome (PollContext Pub Sub H)
  poll_remove ctx descriptor = do
    ctx ← remove_known (lock ctx) (hash.find ctx.poll_hash descriptor)
    done (unlock ctx)

-- The `revents` of an entry that poll(2) returns: POLLIN, POLLOUT, and whether any other bit is set.
pub record Revents : Type 0 where
  pub pollin : Bool
  pub pollout : Bool
  pub other : Bool

-- What poll(2) returns: -1 with EINTR, -1 with another errno, or the number of entries with events,
-- beside the `revents` of every entry.
pub data PollWait : Type 0 where
  poll_interrupted : PollWait
  poll_failed : PollWait
  poll_hits : ℕ → List Revents → PollWait

abbrev pub has_revents : Revents → Bool
has_revents r = r.pollin || r.pollout || r.other

module _ {Pub Sub H : Type 0} (hash : Uthash H) (io : Io (PollContext Pub Sub H)) where
  -- HASH_FIND_INT with the descriptor of an entry.
  unfoldable pub find_entry : PollContext Pub Sub H → Option ℕ → Option ℕ
  find_entry ctx none = none
  find_entry ctx (some fd) = hash.find ctx.poll_hash fd

  -- A descriptor that has been removed since is left out. The user data is read before any call.
  unfoldable pub process_known :
      PollContext Pub Sub H → Revents → Option ℕ → Outcome (PollContext Pub Sub H)
  process_known ctx revents none = done ctx
  process_known ctx revents (some i) =
      let event : Event = record {
        epollin = revents.pollin;
        epollout = revents.pollout;
        data_u32 = (elem_at hash ctx i).user_data;
      } in
      process_epollin io ctx event >>= λ c. process_epollout io c event

  -- `_dstc_process_poll_result`
  unfoldable pub process_poll_result :
      PollContext Pub Sub H → Option ℕ → Revents → Outcome (PollContext Pub Sub H)
  process_poll_result ctx fd revents = process_known ctx revents (find_entry ctx fd)

  -- `while(ind < n_events && n_hits)`, over the entries and their `revents`.
  unfoldable pub process_hits :
      PollContext Pub Sub H → List PollElem → List Revents → ℕ → Outcome (PollContext Pub Sub H)
  process_hits ctx (p ∷ pfds) (r ∷ revents) (suc n_hits) =
      if has_revents r
      then process_poll_result ctx p.fd r >>= (λ c. process_hits c pfds revents n_hits)
      else process_hits ctx pfds revents (suc n_hits)
  process_hits ctx _ _ _ = done ctx

  -- The entries for poll(2), made from the elements of the hash table.
  unfoldable pub poll_vector : PollContext Pub Sub H → List PollElem
  poll_vector ctx = map (elem_at hash ctx) (hash.elems ctx.poll_hash)

  module _ {W : Type 0} (poll : List PollElem → ℕ → W → PollWait × W) where
    unfoldable pub poll_again : (W → Outcome (PollWait × W)) → PollWait × W → Outcome (PollWait × W)
    poll_again again (poll_interrupted, w) = again w
    poll_again again (poll_failed, w) = done (poll_failed, w)
    poll_again again (poll_hits n revents, w) = done (poll_hits n revents, w)

    unfoldable pub poll_events : ℕ → List PollElem → ℕ → W → Outcome (PollWait × W)
    poll_events zero pfds timeout_msec w = out_of_fuel
    poll_events (suc fuel) pfds timeout_msec w =
        poll_again (poll_events fuel pfds timeout_msec) (poll pfds timeout_msec w)

    unfoldable pub process_polled :
        PollContext Pub Sub H
        → List PollElem
        → PollWait × W
        → Outcome (ℕ × PollContext Pub Sub H × W)
    process_polled ctx pfds (poll_interrupted, w) = exit 255
    process_polled ctx pfds (poll_failed, w) = exit 255
    process_polled ctx pfds (poll_hits zero revents, w) = done (etime, ctx, w)
    process_polled ctx pfds (poll_hits (suc n) revents, w) =
        process_hits ctx pfds revents (suc n) >>= (λ c. done (0, c, w))

    -- `_dstc_process_single_event` of this build
    unfoldable pub process_single_poll :
        ℕ → PollContext Pub Sub H → W → ℕ → Outcome (ℕ × PollContext Pub Sub H × W)
    process_single_poll fuel ctx w timeout_msec = do
      let pfds = poll_vector ctx
      result ← poll_events fuel pfds timeout_msec w
      process_polled (lock hash (unlock hash ctx)) pfds result
