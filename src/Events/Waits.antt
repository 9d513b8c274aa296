-- ===== src/Events/Waits.antt =====
-- dstc_process_events of dstc.c and the invariants of the context, for a thread that does not hold the lock.
use dstc.Base.{
  ℕ, ◌+◌, ◌≡◌, refl, Option, none, some, not, ◌==◌, if◌then◌else◌, Holds, Holds->>=, Holds-any,
  Holds-if, Bool-cases, inl, inr,
}
use dstc.Wire.{u32}
use dstc.Rmc.{Rmc, System}
use dstc.Context.{Context, deref, lock_context, unlock_context}
use dstc.Setup.{etime, lock_and_init_context}
use dstc.Setup.Laws.{context_initialized_lem}
use dstc.Timeout.{minus_one, int_lt, get_next_timeout_abs, get_timeout_msec_rel}
use dstc.Epoll.{Os, Io, process_single_event}
use dstc.Epoll.Sound.{IoKeeps, process_single_event-KeepsIn}
use dstc.Events.{
  msec, add_msec, lock_context_timeout, init_locked, lock_and_init_context_timeout,
  process_events_locked, process_events_for, choose_timeout, process_events_until, process_events,
  zero_and_unlock,
}
use dstc.Events.Sound.{
  Steady, KeepsIn, timeout_and_unlock-KeepsIn, timeout_and_unlock-free, process_events_now-KeepsIn,
  finish_event-KeepsIn,
}

deref-Holds : {A : Type 0} (o : Option A) → Holds (λ a. o ≡ some a) (deref o)
deref-Holds none = tt
deref-Holds (some a) = refl

module _ {Pub Sub W : Type 0} (rmc : Rmc Pub Sub) (sys : System) (io : Io (Context Pub Sub))
    (os : Os W) (P : ℕ → Context Pub Sub → Type 0) (keeps : IoKeeps P io)
    (steady : Steady P rmc sys) where
  -- A context that is set up, and meets the invariant for a thread that does not hold the lock.
  abbrev Up : Context Pub Sub → Type 0
  Up ctx = P 0 ctx × (p : Pub) × (ctx.pub_ctx ≡ some p)

  abbrev HeldUp : Context Pub Sub → Type 0
  HeldUp ctx = P 1 ctx × (p : Pub) × (ctx.pub_ctx ≡ some p)

  get_timeout_msec_rel-Up :
      (ctx : Context Pub Sub) (now : ℕ)
      → P 0 ctx
      → Holds (λ r. Up r.1) (get_timeout_msec_rel rmc sys ctx now)
  unfolding get_timeout_msec_rel get_next_timeout_abs
  get_timeout_msec_rel-Up ctx now h =
      let next : Holds (λ r. Up r.1) (get_next_timeout_abs rmc sys ctx) =
        Holds->>= (λ r. P 1 r.1) (λ r. Up r.1) (lock_and_init_context rmc sys ctx) _
          (steady.init 0 ctx h)
          λ r held.
            Holds->>= (λ s. HeldUp s.1) (λ s. Up s.1) _ _
              (Holds->>= (λ p. r.1.pub_ctx ≡ some p) (λ s. HeldUp s.1) (deref r.1.pub_ctx) _
                (deref-Holds r.1.pub_ctx)
                λ p e. Holds-any (λ s. HeldUp s.1) (deref r.1.sub_ctx) _ λ s. (held, p, e))
              λ s k. (steady.locks.unlock 0 s.1 k.0, k.1, unfold unlock_context in k.2) in
      Holds->>= (λ r. Up r.1) (λ r. Up r.1) (get_next_timeout_abs rmc sys ctx) _ next λ r k. k

  lock_and_init_context_timeout-Holds :
      (ctx : Context Pub Sub) (w : W) (abs_timeout : ℕ × ℕ)
      → Up ctx
      → Holds
          (λ r. P (if r.0 == etime then 0 else 1) r.1)
          (lock_and_init_context_timeout rmc sys io os ctx w abs_timeout)
  unfolding lock_and_init_context_timeout init_locked lock_context_timeout
  lock_and_init_context_timeout-Holds ctx w abs_timeout (h, p, up) =
      let ready =
        context_initialized_lem (lock_context ctx) {pub_ctx = p} (unfold lock_context in up) in
      let held = steady.locks.lock 0 ctx h in
      elim (Bool-cases (os.mutex_trylock w).0) [
        | inl free ↦ rw (free, ready) held
        | inr taken ↦ elim (Bool-cases (os.mutex_timedlock abs_timeout (os.mutex_trylock w).1).0) [
          | inl freed ↦ rw (taken, freed, ready) held
          | inr late ↦ rw (taken, late) h
        ]
      ]

  process_events_locked-KeepsIn :
      (retries timeout_rel next_abs : ℕ) (r : ℕ × Context Pub Sub × W)
      → P (if r.0 == etime then 0 else 1) r.1
      → KeepsIn rmc sys io os P keeps steady 0
          (process_events_locked rmc sys io os retries timeout_rel next_abs r)
  unfolding process_events_locked
  process_events_locked-KeepsIn retries timeout_rel next_abs (lock_res, ctx, w) h =
      elim (Bool-cases (lock_res == etime)) [
        | inl late ↦
            rw late
              (timeout_and_unlock-free rmc sys io os P keeps steady etime ctx w (rw late at h))
        | inr taken ↦ rw taken (
            finish_event-KeepsIn rmc sys io os P keeps steady 0 _ (
              process_single_event-KeepsIn P io keeps os steady.locks 0 retries ctx _ _
                (rw taken at h)))
      ]

  process_events_for-KeepsIn :
      (retries : ℕ) (abs_time : ℕ × ℕ) (timeout_rel next_abs : ℕ) (ctx : Context Pub Sub) (w : W)
      → Up ctx
      → KeepsIn rmc sys io os P keeps steady 0
          (process_events_for rmc sys io os retries abs_time timeout_rel next_abs ctx w)
  unfolding process_events_for
  process_events_for-KeepsIn retries abs_time timeout_rel next_abs ctx w up =
      Holds-if (λ r. P 0 r.1) (not (int_lt 0 timeout_rel)) _ _
        (Holds->>= (λ r. P 1 r.1) (λ r. P 0 r.1)
          (process_single_event io os retries (lock_context ctx) w 0) _
          (process_single_event-KeepsIn P io keeps os steady.locks 0 retries (lock_context ctx) w 0
            (steady.locks.lock 0 ctx up.0))
          λ r k. timeout_and_unlock-KeepsIn rmc sys io os P keeps steady 0 etime r.1 r.2 k)
        (Holds-any (λ r. P 0 r.1) (add_msec abs_time timeout_rel) _
          λ deadline.
            Holds->>= (λ r. P (if r.0 == etime then 0 else 1) r.1) (λ r. P 0 r.1)
              (lock_and_init_context_timeout rmc sys io os ctx w deadline) _
              (lock_and_init_context_timeout-Holds ctx w deadline up)
              λ r k. process_events_locked-KeepsIn retries timeout_rel next_abs r k)

  process_events_until-KeepsIn :
      (retries : ℕ) (abs_time : ℕ × ℕ) (timeout_rel next_rel : ℕ) (ctx : Context Pub Sub) (w : W)
      → Up ctx
      → KeepsIn rmc sys io os P keeps steady 0
          (process_events_until rmc sys io os retries abs_time timeout_rel next_rel ctx w)
  unfolding process_events_until zero_and_unlock
  process_events_until-KeepsIn retries abs_time timeout_rel next_rel ctx w up =
      Holds-if (λ r. P 0 r.1) _ _ _
        (Holds->>= (λ r. P 1 r.1) (λ r. P 0 r.1)
          (process_single_event io os retries (lock_context ctx) w minus_one) _
          (process_single_event-KeepsIn P io keeps os steady.locks 0 retries (lock_context ctx) w
            minus_one (steady.locks.lock 0 ctx up.0))
          λ r k. steady.locks.unlock 0 r.1 k)
        (process_events_for-KeepsIn retries abs_time
          (choose_timeout rmc sys io os timeout_rel next_rel) (u32 (msec abs_time + next_rel)) ctx w
          up)

  -- dstc_process_events, by a thread that does not hold the lock.
  pub process_events-KeepsIn :
      (retries fuel : ℕ) (ctx : Context Pub Sub) (w : W) (timeout_rel : ℕ)
      → P 0 ctx
      → Holds (λ r. P 0 r.1) (process_events rmc sys io os retries fuel ctx w timeout_rel)
  unfolding process_events
  process_events-KeepsIn retries fuel ctx w timeout_rel h =
      let (abs_time, later) = os.clock_gettime w in
      Holds-if (λ r. P 0 r.1) (timeout_rel == 0) _ _
        (process_events_now-KeepsIn rmc sys io os P keeps steady 0 retries fuel ctx w h)
        (Holds->>= (λ r. Up r.1) (λ r. P 0 r.1) (get_timeout_msec_rel rmc sys ctx (msec abs_time)) _
          (get_timeout_msec_rel-Up ctx (msec abs_time) h)
          λ r up. process_events_until-KeepsIn retries abs_time timeout_rel r.0 r.1 later up)
