-- ===== src/Epoll/Sound.antt =====
-- epoll.c and the invariants of the context: the handlers of events, and `_dstc_process_single_event`.
-- An invariant may depend on how often the lock is held.
use dstc.Base.{
  ℕ, zero, suc, ◌+◌, ◌%◌, ◌^◌, ◌==◌, ◌||◌, List, [], ◌∷◌, length, get_or, not, Outcome, done, ◌>>=◌,
  Holds, Holds->>=, Holds-any, Holds-if,
}
use dstc.Context.{Context, lock_context, unlock_context}
use dstc.Epoll.{
  enodata, Event, no_event, Wait, interrupted, failed, ready, Os, Io, process_epollin,
  process_epollout, close_on_error, process_epoll_result, process_events_array, wait_for_events,
  process_ready, process_single_event,
}
use dstc.Epoll.UserData.{user_data_index, is_pub}

module _ {Pub Sub : Type 0} (P : ℕ → Context Pub Sub → Type 0) where
  -- The lock and its release keep the invariant.
  pub record LockKeeps : Type 0 where
    pub lock : (n : ℕ) (c : Context Pub Sub) → P n c → P (n + 1) (lock_context c)
    pub unlock : (n : ℕ) (c : Context Pub Sub) → P (n + 1) c → P n (unlock_context c)
    pub unlock_free : (c : Context Pub Sub) → P 0 c → P 0 (unlock_context c)

  -- Each call of rmc, with the callbacks of dstc.c that it makes, keeps the invariant, if it returns.
  pub record IoKeeps (io : Io (Context Pub Sub)) : Type 0 where
    pub pub_read : (i n : ℕ) (c : Context Pub Sub) → P n c → Holds (P n) (io.pub_read i c)
    pub sub_read : (i n : ℕ) (c : Context Pub Sub) → P n c → Holds (P n) (io.sub_read i c)
    pub pub_write :
        (i n : ℕ) (c : Context Pub Sub) → P n c → Holds (λ r. P n r.1) (io.pub_write i c)
    pub sub_write :
        (i n : ℕ) (c : Context Pub Sub) → P n c → Holds (λ r. P n r.1) (io.sub_write i c)
    pub pub_close_connection :
        (i n : ℕ) (c : Context Pub Sub) → P n c → Holds (P n) (io.pub_close_connection i c)
    pub sub_close_connection :
        (i n : ℕ) (c : Context Pub Sub) → P n c → Holds (P n) (io.sub_close_connection i c)
    pub pub_timeout_process :
        (n : ℕ) (c : Context Pub Sub) → P n c → Holds (λ r. P n r.1) (io.pub_timeout_process c)
    pub sub_timeout_process :
        (n : ℕ) (c : Context Pub Sub) → P n c → Holds (λ r. P n r.1) (io.sub_timeout_process c)

  module _ (io : Io (Context Pub Sub)) (keeps : IoKeeps io) where
    process_epollin-Keeps :
        (n : ℕ) (ctx : Context Pub Sub) (e : Event)
        → P n ctx
        → Holds (P n) (process_epollin io ctx e)
    unfolding process_epollin
    process_epollin-Keeps n ctx e h =
        let i = user_data_index e.data_u32 in
        Holds-if (P n) (not e.epollin) _ _ h (
          Holds-if (P n) (is_pub e.data_u32) _ _ (keeps.pub_read i n ctx h)
            (keeps.sub_read i n ctx h))

    close_on_error-Keeps :
        (n i : ℕ) (close : ℕ → Context Pub Sub → Outcome (Context Pub Sub))
        (m : Outcome (ℕ × Context Pub Sub))
        → ((c : Context Pub Sub) → P n c → Holds (P n) (close i c))
        → Holds (λ r. P n r.1) m
        → Holds (P n) (m >>= close_on_error io close i)
    unfolding close_on_error
    close_on_error-Keeps n i close m k h =
        Holds->>= (λ r. P n r.1) (P n) m _ h
          λ (res, c) sound.
            Holds-if (P n) (res % 2 ^ 8 == 0 || res % 2 ^ 8 == enodata) (done c) (close i c) sound
              (k c sound)

    process_epollout-Keeps :
        (n : ℕ) (ctx : Context Pub Sub) (e : Event)
        → P n ctx
        → Holds (P n) (process_epollout io ctx e)
    unfolding process_epollout
    process_epollout-Keeps n ctx e h =
        let i = user_data_index e.data_u32 in
        Holds-if (P n) (not e.epollout) _ _ h (
          Holds-if (P n) (is_pub e.data_u32) _ _
            (close_on_error-Keeps n i io.pub_close_connection (io.pub_write i ctx)
              (keeps.pub_close_connection i n) (keeps.pub_write i n ctx h))
            (close_on_error-Keeps n i io.sub_close_connection (io.sub_write i ctx)
              (keeps.sub_close_connection i n) (keeps.sub_write i n ctx h)))

    pub process_epoll_result-Keeps :
        (n : ℕ) (ctx : Context Pub Sub) (e : Event)
        → P n ctx
        → Holds (P n) (process_epoll_result io ctx e)
    unfolding process_epoll_result
    process_epoll_result-Keeps n ctx e h =
        Holds->>= (P n) (P n) (process_epollin io ctx e) _ (process_epollin-Keeps n ctx e h)
          λ c k. process_epollout-Keeps n c e k

    process_events_array-Keeps :
        (events : List Event) (k n : ℕ) (ctx : Context Pub Sub)
        → P n ctx
        → Holds (P n) (process_events_array io events k ctx)
    unfolding process_events_array
    process_events_array-Keeps events zero n ctx h = h
    process_events_array-Keeps events (suc k) n ctx h =
        Holds->>= (P n) (P n) (process_epoll_result io ctx (get_or events k no_event)) _
          (process_epoll_result-Keeps n ctx (get_or events k no_event) h)
          λ c sound. process_events_array-Keeps events k n c sound

    module _ {W : Type 0} (os : Os W) (locks : LockKeeps) where
      -- Code that goes on in the world, too.
      abbrev pub KeepsIn : ℕ → Outcome (ℕ × Context Pub Sub × W) → Type 0
      KeepsIn n m = Holds (λ r. P n r.1) m

      process_ready-KeepsIn :
          (n : ℕ) (ctx : Context Pub Sub) (r : Wait × W)
          → P n ctx
          → KeepsIn n (process_ready io os ctx r)
      unfolding process_ready
      process_ready-KeepsIn n ctx (interrupted, w) h = tt
      process_ready-KeepsIn n ctx (failed, w) h = tt
      process_ready-KeepsIn n ctx (ready [], w) h = h
      process_ready-KeepsIn n ctx (ready (e ∷ events), w) h =
          Holds->>= (P n) (λ r. P n r.1)
            (process_events_array io (e ∷ events) (length (e ∷ events)) ctx) _
            (process_events_array-Keeps (e ∷ events) (length (e ∷ events)) n ctx h) λ c k. k

      -- The lock is held before and after, and let go in between.
      pub process_single_event-KeepsIn :
          (n fuel : ℕ) (ctx : Context Pub Sub) (w : W) (timeout_msec : ℕ)
          → P (n + 1) ctx
          → KeepsIn (n + 1) (process_single_event io os fuel ctx w timeout_msec)
      unfolding process_single_event
      process_single_event-KeepsIn n fuel ctx w timeout_msec h =
          Holds-any (λ r. P (n + 1) r.1) (wait_for_events io os fuel ctx.epoll_fd timeout_msec w) _
            λ r.
              process_ready-KeepsIn (n + 1) (lock_context (unlock_context ctx)) r
                (locks.lock n (unlock_context ctx) (locks.unlock n ctx h))
