-- ===== src/Epoll/Lock.antt =====
-- epoll.c, `_dstc_process_single_event` and the lock of the context, which it lets go for a while.
use dstc.Base.{
  ℕ, zero, suc, ◌<◌, ◌≡◌, ◌∙◌, List, [], ◌∷◌, arith, length, get_or, Outcome, done, ◌>>=◌,
  >>=-eq-done,
}
use dstc.Context.{Context, lock_context, unlock_context}
use dstc.Epoll.{
  Event, no_event, Wait, interrupted, failed, ready, Os, Io, process_epollin, process_epollout,
  close_on_error, process_epoll_result, process_events_array, wait_for_events, process_ready,
  process_single_event,
}
use dstc.Epoll.UserData.{user_data_index}

-- Each call of rmc leaves the lock as often held as it was, if it returns.
pub record KeepsLock {Pub Sub : Type 0} (io : Io (Context Pub Sub)) : Type 0 where
  pub pub_read : (i : ℕ) (c c' : Context Pub Sub) → io.pub_read i c ≡ done c' → c'.lock ≡ c.lock
  pub sub_read : (i : ℕ) (c c' : Context Pub Sub) → io.sub_read i c ≡ done c' → c'.lock ≡ c.lock
  pub pub_write :
      (i : ℕ) (c c' : Context Pub Sub) (r : ℕ) → io.pub_write i c ≡ done (r, c') → c'.lock ≡ c.lock
  pub sub_write :
      (i : ℕ) (c c' : Context Pub Sub) (r : ℕ) → io.sub_write i c ≡ done (r, c') → c'.lock ≡ c.lock
  pub pub_close_connection :
      (i : ℕ) (c c' : Context Pub Sub) → io.pub_close_connection i c ≡ done c' → c'.lock ≡ c.lock
  pub sub_close_connection :
      (i : ℕ) (c c' : Context Pub Sub) → io.sub_close_connection i c ≡ done c' → c'.lock ≡ c.lock
  pub pub_timeout_process :
      (c c' : Context Pub Sub) (r : ℕ) → io.pub_timeout_process c ≡ done (r, c') → c'.lock ≡ c.lock
  pub sub_timeout_process :
      (c c' : Context Pub Sub) (r : ℕ) → io.sub_timeout_process c ≡ done (r, c') → c'.lock ≡ c.lock

module _ {Pub Sub : Type 0} (io : Io (Context Pub Sub)) (keeps : KeepsLock io) where
  lock-process_epollin :
      (ctx ctx' : Context Pub Sub) (e : Event)
      → process_epollin io ctx e ≡ done ctx'
      → ctx'.lock ≡ ctx.lock
  unfolding process_epollin
  lock-process_epollin ctx ctx' e h =
      let i = user_data_index e.data_u32 in
      ground (arith, keeps.pub_read i ctx ctx', keeps.sub_read i ctx ctx')

  lock-close_on_error :
      (close : ℕ → Context Pub Sub → Outcome (Context Pub Sub))
      → ((i : ℕ) (c c' : Context Pub Sub) → close i c ≡ done c' → c'.lock ≡ c.lock)
      → (i r : ℕ) (c c' : Context Pub Sub) → close_on_error io close i (r, c) ≡ done c'
      → c'.lock ≡ c.lock
  unfolding close_on_error
  lock-close_on_error close k i r c c' h = ground (arith, k i c c')

  lock-process_epollout :
      (ctx ctx' : Context Pub Sub) (e : Event)
      → process_epollout io ctx e ≡ done ctx'
      → ctx'.lock ≡ ctx.lock
  unfolding process_epollout
  lock-process_epollout ctx ctx' e h =
      let i = user_data_index e.data_u32 in
      let by_pub : (io.pub_write i ctx >>= close_on_error io io.pub_close_connection i) ≡ done ctx'
          → ctx'.lock ≡ ctx.lock =
        λ m.
          let (r, w, c) = >>=-eq-done (io.pub_write i ctx) _ m in
          lock-close_on_error io.pub_close_connection keeps.pub_close_connection i r.0 r.1 ctx' c
          ∙ keeps.pub_write i ctx r.1 r.0 w in
      let by_sub : (io.sub_write i ctx >>= close_on_error io io.sub_close_connection i) ≡ done ctx'
          → ctx'.lock ≡ ctx.lock =
        λ m.
          let (r, w, c) = >>=-eq-done (io.sub_write i ctx) _ m in
          lock-close_on_error io.sub_close_connection keeps.sub_close_connection i r.0 r.1 ctx' c
          ∙ keeps.sub_write i ctx r.1 r.0 w in
      ground (arith, by_pub, by_sub)

  lock-process_epoll_result :
      (ctx ctx' : Context Pub Sub) (e : Event)
      → process_epoll_result io ctx e ≡ done ctx'
      → ctx'.lock ≡ ctx.lock
  unfolding process_epoll_result
  lock-process_epoll_result ctx ctx' e h =
      let (c, first, second) = >>=-eq-done (process_epollin io ctx e) _ h in
      lock-process_epollout c ctx' e second ∙ lock-process_epollin ctx c e first

  lock-process_events_array :
      (events : List Event) (n : ℕ) (ctx ctx' : Context Pub Sub)
      → process_events_array io events n ctx ≡ done ctx'
      → ctx'.lock ≡ ctx.lock
  unfolding process_events_array
  lock-process_events_array events zero ctx ctx' h = ground arith
  lock-process_events_array events (suc n) ctx ctx' h =
      let (c, first, rest) =
        >>=-eq-done (process_epoll_result io ctx (get_or events n no_event)) _ h in
      lock-process_events_array events n c ctx' rest
      ∙ lock-process_epoll_result ctx c (get_or events n no_event) first

  module _ {W : Type 0} (os : Os W) where
    lock-process_ready :
        (ctx : Context Pub Sub) (r : Wait × W) (res : ℕ) (ctx' : Context Pub Sub) (w' : W)
        → process_ready io os ctx r ≡ done (res, ctx', w')
        → ctx'.lock ≡ ctx.lock
    unfolding process_ready
    lock-process_ready ctx (interrupted, w) res ctx' w' h = cc
    lock-process_ready ctx (failed, w) res ctx' w' h = cc
    lock-process_ready ctx (ready [], w) res ctx' w' h = ground arith
    lock-process_ready ctx (ready (e ∷ events), w) res ctx' w' h =
        let (c, all, end) =
          >>=-eq-done (process_events_array io (e ∷ events) (length (e ∷ events)) ctx) _ h in
        let same = lock-process_events_array (e ∷ events) (length (e ∷ events)) ctx c all in
        ground (arith, same, end)

    -- A thread that holds the lock holds it as often after an event as before.
    pub lock-process_single_event :
        (fuel : ℕ) (ctx : Context Pub Sub) (w : W) (timeout_msec res : ℕ) (ctx' : Context Pub Sub)
        (w' : W)
        → 0 < ctx.lock
        → process_single_event io os fuel ctx w timeout_msec ≡ done (res, ctx', w')
        → ctx'.lock ≡ ctx.lock
    unfolding process_single_event lock_context unlock_context
    lock-process_single_event fuel ctx w timeout_msec res ctx' w' held h =
        let (r, wait, all) =
          >>=-eq-done (wait_for_events io os fuel ctx.epoll_fd timeout_msec w) _ h in
        let same = lock-process_ready (lock_context (unlock_context ctx)) r res ctx' w' all in
        omega (arith, same)
