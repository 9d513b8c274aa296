-- ===== src/Events/Laws.antt =====
-- dstc_process_events of dstc.c and the lock of the context.
use dstc.Base.{
  ℕ, zero, suc, ◌+◌, ◌-◌, ◌<◌, ◌≡◌, ◌∙◌, some, arith, ◌==◌, if◌then◌else◌, Outcome, done, ◌>>=◌,
  >>=-eq-done,
}
use dstc.Wire.{u32}
use dstc.Rmc.{Rmc, System}
use dstc.Context.{Context, lock_context, unlock_context}
use dstc.Setup.{etime}
use dstc.Setup.Laws.{context_initialized_lem}
use dstc.Timeout.{minus_one, get_timeout_msec_rel}
use dstc.Timeout.Laws.{get_timeout_msec_rel_lem}
use dstc.Epoll.{Os, Io, process_single_event}
use dstc.Epoll.Lock.{KeepsLock, lock-process_single_event}
use dstc.Events.{
  msec, add_msec, again_or_done, sub_timeout, process_timeout_locked, timeout_and_unlock, now_round,
  process_events_now, lock_context_timeout, init_locked, lock_and_init_context_timeout,
  finish_event, remaining, process_events_locked, process_events_for, choose_timeout,
  process_events_until, process_events, zero_and_unlock,
}

module _ {Pub Sub W : Type 0} (rmc : Rmc Pub Sub) (sys : System) (io : Io (Context Pub Sub))
    (os : Os W) (keeps : KeepsLock io) where
  lock-sub_timeout :
      (res : ℕ) (ctx ctx' : Context Pub Sub) (r : ℕ)
      → sub_timeout rmc sys io os (res, ctx) ≡ done (r, ctx')
      → ctx'.lock ≡ ctx.lock
  unfolding sub_timeout again_or_done
  lock-sub_timeout res ctx ctx' r h =
      let asked : (io.sub_timeout_process ctx >>= again_or_done rmc sys io os) ≡ done (r, ctx')
          → ctx'.lock ≡ ctx.lock =
        λ m.
          let (s, e, end) = >>=-eq-done (io.sub_timeout_process ctx) _ m in
          let same = keeps.sub_timeout_process ctx s.1 s.0 e in ground (arith, same, end) in
      ground (arith, asked)

  lock-process_timeout_locked :
      (ctx ctx' : Context Pub Sub) (r : ℕ)
      → process_timeout_locked rmc sys io os ctx ≡ done (r, ctx')
      → ctx'.lock ≡ ctx.lock
  unfolding process_timeout_locked
  lock-process_timeout_locked ctx ctx' r h =
      let (p, e, rest) = >>=-eq-done (io.pub_timeout_process ctx) _ h in
      lock-sub_timeout p.0 p.1 ctx' r rest ∙ keeps.pub_timeout_process ctx p.1 p.0 e

  lock-timeout_and_unlock :
      (res : ℕ) (ctx : Context Pub Sub) (w : W) (r : ℕ) (ctx' : Context Pub Sub) (w' : W)
      → timeout_and_unlock rmc sys io os res ctx w ≡ done (r, ctx', w')
      → ctx'.lock ≡ ctx.lock - 1
  unfolding timeout_and_unlock unlock_context
  lock-timeout_and_unlock res ctx w r ctx' w' h =
      let (p, e, end) = >>=-eq-done (process_timeout_locked rmc sys io os ctx) _ h in
      let same = lock-process_timeout_locked ctx p.1 p.0 e in ground (arith, same, end)

  lock-now_round :
      (again : Context Pub Sub → W → Outcome (ℕ × Context Pub Sub × W))
      → ((ctx : Context Pub Sub) (w : W) (r : ℕ) (ctx' : Context Pub Sub) (w' : W)
          → again ctx w ≡ done (r, ctx', w')
          → ctx'.lock ≡ ctx.lock)
      → (res : ℕ) (ctx : Context Pub Sub) (w : W) (r : ℕ) (ctx' : Context Pub Sub) (w' : W)
      → now_round rmc sys io os again (res, ctx, w) ≡ done (r, ctx', w')
      → ctx'.lock ≡ ctx.lock - 1
  unfolding now_round unlock_context
  lock-now_round again k res ctx w r ctx' w' h = ground (
    arith,
    lock-timeout_and_unlock etime ctx w r ctx' w',
    k (record ctx { lock = ctx.lock - 1 }) w r ctx' w',
  )

  lock-process_events_now :
      (retries fuel : ℕ) (ctx : Context Pub Sub) (w : W) (r : ℕ) (ctx' : Context Pub Sub) (w' : W)
      → process_events_now rmc sys io os retries fuel ctx w ≡ done (r, ctx', w')
      → ctx'.lock ≡ ctx.lock
  unfolding process_events_now lock_context
  lock-process_events_now retries zero ctx w r ctx' w' h = cc
  lock-process_events_now retries (suc fuel) ctx w r ctx' w' h =
      let held : Context Pub Sub = record ctx { lock = ctx.lock + 1 } in
      let (s, one, rest) = >>=-eq-done (process_single_event io os retries held w 0) _ h in
      let same =
        lock-process_single_event io keeps os retries held w 0 s.0 s.1 s.2 (omega arith) one in
      let less =
        lock-now_round (process_events_now rmc sys io os retries fuel)
          (lock-process_events_now retries fuel) s.0 s.1 s.2 r ctx' w' rest in
      omega (arith, same, less)

  lock-finish_event :
      (retval : ℕ) (ctx : Context Pub Sub) (w : W) (r : ℕ) (ctx' : Context Pub Sub) (w' : W)
      → finish_event rmc sys io os (retval, ctx, w) ≡ done (r, ctx', w')
      → ctx'.lock ≡ ctx.lock - 1
  unfolding finish_event unlock_context
  lock-finish_event retval ctx w r ctx' w' h =
      ground (arith, lock-timeout_and_unlock retval ctx w r ctx' w')

  -- What follows the lock: it was taken once, or it was not taken and is not held.
  lock-process_events_locked :
      (retries timeout_rel next_abs lock_res : ℕ) (ctx : Context Pub Sub) (w : W) (r : ℕ)
      (ctx' : Context Pub Sub) (w' : W)
      → ctx.lock ≡ (if lock_res == etime then 0 else 1)
      → process_events_locked rmc sys io os retries timeout_rel next_abs (lock_res, ctx, w)
        ≡ done (r, ctx', w')
      → ctx'.lock ≡ 0
  unfolding process_events_locked
  lock-process_events_locked retries timeout_rel next_abs lock_res ctx w r ctx' w' held h =
      let (left, later) = remaining rmc sys io os lock_res timeout_rel next_abs w in
      let waited : 0 < ctx.lock
          → (process_single_event io os retries ctx later left >>= finish_event rmc sys io os)
            ≡ done (r, ctx', w')
          → ctx'.lock ≡ ctx.lock - 1 =
        λ some_lock m.
          let (s, one, end) = >>=-eq-done (process_single_event io os retries ctx later left) _ m in
          let same =
            lock-process_single_event io keeps os retries ctx later left s.0 s.1 s.2 some_lock
              one in
          let less = lock-finish_event s.0 s.1 s.2 r ctx' w' end in omega (arith, same, less) in
      ground (arith, waited, lock-timeout_and_unlock etime ctx w r ctx' w')

  lock-lock_and_init_context_timeout :
      (ctx : Context Pub Sub) {pub_ctx : Pub} (w : W) (abs_timeout : ℕ × ℕ) (lock_res : ℕ)
      (ctx' : Context Pub Sub) (w' : W)
      → ctx.pub_ctx ≡ some pub_ctx
      → ctx.lock ≡ 0
      → lock_and_init_context_timeout rmc sys io os ctx w abs_timeout ≡ done (lock_res, ctx', w')
      → ctx'.lock ≡ (if lock_res == etime then 0 else 1)
  unfolding lock_and_init_context_timeout init_locked lock_context_timeout lock_context
  lock-lock_and_init_context_timeout ctx w abs_timeout lock_res ctx' w' up free h =
      let ready = context_initialized_lem (record ctx { lock = ctx.lock + 1 }) up in
      ground (arith, ready)

  lock-process_events_for :
      (retries : ℕ) (abs_time : ℕ × ℕ) (timeout_rel next_abs : ℕ) (ctx : Context Pub Sub)
      {pub_ctx : Pub} (w : W) (r : ℕ) (ctx' : Context Pub Sub) (w' : W)
      → ctx.pub_ctx ≡ some pub_ctx
      → ctx.lock ≡ 0
      → process_events_for rmc sys io os retries abs_time timeout_rel next_abs ctx w
        ≡ done (r, ctx', w')
      → ctx'.lock ≡ 0
  unfolding process_events_for lock_context
  lock-process_events_for retries abs_time timeout_rel next_abs ctx w r ctx' w' up free h =
      let held : Context Pub Sub = record ctx { lock = ctx.lock + 1 } in
      let at_once : (process_single_event io os retries held w 0
              >>= (λ s. timeout_and_unlock rmc sys io os etime s.1 s.2))
            ≡ done (r, ctx', w')
          → ctx'.lock ≡ 0 =
        λ m.
          let (s, one, end) = >>=-eq-done (process_single_event io os retries held w 0) _ m in
          let same =
            lock-process_single_event io keeps os retries held w 0 s.0 s.1 s.2 (omega arith) one in
          let less = lock-timeout_and_unlock etime s.1 s.2 r ctx' w' end in
          omega (arith, same, less) in
      let waited : (add_msec abs_time timeout_rel >>= λ deadline.
      lock_and_init_context_timeout rmc sys io os ctx w deadline
      >>= process_events_locked rmc sys io os retries timeout_rel next_abs)
            ≡ done (r, ctx', w')
          → ctx'.lock ≡ 0 =
        λ m.
          let (deadline, sum, m') = >>=-eq-done (add_msec abs_time timeout_rel) _ m in
          let (s, taken, end) =
            >>=-eq-done (lock_and_init_context_timeout rmc sys io os ctx w deadline) _ m' in
          lock-process_events_locked retries timeout_rel next_abs s.0 s.1 s.2 r ctx' w'
            (lock-lock_and_init_context_timeout ctx w deadline s.0 s.1 s.2 up free taken) end in
      ground (arith, at_once, waited)

  lock-process_events_until :
      (retries : ℕ) (abs_time : ℕ × ℕ) (timeout_rel next_rel : ℕ) (ctx : Context Pub Sub)
      {pub_ctx : Pub} (w : W) (r : ℕ) (ctx' : Context Pub Sub) (w' : W)
      → ctx.pub_ctx ≡ some pub_ctx
      → ctx.lock ≡ 0
      → process_events_until rmc sys io os retries abs_time timeout_rel next_rel ctx w
        ≡ done (r, ctx', w')
      → ctx'.lock ≡ 0
  unfolding process_events_until lock_context unlock_context zero_and_unlock
  lock-process_events_until retries abs_time timeout_rel next_rel ctx w r ctx' w' up free h =
      let held : Context Pub Sub = record ctx { lock = ctx.lock + 1 } in
      let forever : (process_single_event io os retries held w minus_one
              >>= zero_and_unlock rmc sys io os)
            ≡ done (r, ctx', w')
          → ctx'.lock ≡ 0 =
        λ m.
          let (s, one, end) =
            >>=-eq-done (process_single_event io os retries held w minus_one) _ m in
          let same =
            lock-process_single_event io keeps os retries held w minus_one s.0 s.1 s.2 (omega arith)
              one in
          ground (arith, same, end) in
      ground (
        arith,
        forever,
        lock-process_events_for retries abs_time (choose_timeout rmc sys io os timeout_rel next_rel)
            (u32 (msec abs_time + next_rel)) ctx w r ctx' w' up free,
      )

  -- A thread that does not hold the lock of a context that is set up does not hold it after a
  -- dstc_process_events that returns, whatever the timeout is, whether or not the lock was free and
  -- whatever arrives, if the calls of rmc leave the lock as often held as they find it.
  pub lock-process_events :
      (retries fuel : ℕ) (ctx : Context Pub Sub) (pub_ctx : Pub) (sub_ctx : Sub) (w : W)
      (timeout_rel : ℕ) {r : ℕ} {ctx' : Context Pub Sub} {w' : W}
      → ctx.pub_ctx ≡ some pub_ctx
      → ctx.sub_ctx ≡ some sub_ctx
      → ctx.lock ≡ 0
      → process_events rmc sys io os retries fuel ctx w timeout_rel ≡ done (r, ctx', w')
      → ctx'.lock ≡ 0
  unfolding process_events
  lock-process_events retries fuel ctx pub_ctx sub_ctx w timeout_rel {r} {ctx'} {w'} up down free
        h =
      let (abs_time, later) = os.clock_gettime w in
      let left = get_timeout_msec_rel_lem rmc sys ctx pub_ctx sub_ctx up down (msec abs_time) in
      let waited : (get_timeout_msec_rel rmc sys ctx (msec abs_time) >>= λ s.
      process_events_until rmc sys io os retries abs_time timeout_rel s.0 s.1 later)
            ≡ done (r, ctx', w')
          → ctx'.lock ≡ 0 =
        λ m.
          lock-process_events_until retries abs_time timeout_rel _ ctx later r ctx' w' up free
            (rw left at m) in
      ground (arith, waited, lock-process_events_now retries fuel ctx w r ctx' w')
