-- ===== src/Events/Sound.antt =====
-- The event loop of dstc.c and the invariants of the context: the timers, pending events, and what follows
-- an event.
use dstc.Base.{ℕ, zero, suc, ◌+◌, ◌==◌, Outcome, done, ◌>>=◌, Holds, Holds->>=, Holds-if}
use dstc.Rmc.{Rmc, System}
use dstc.Context.{Context, lock_context, unlock_context}
use dstc.Setup.{etime, eagain, lock_and_init_context, locked}
use dstc.Epoll.{Event, Os, Io, process_single_event}
use dstc.Epoll.Sound.{LockKeeps, IoKeeps, process_epoll_result-Keeps, process_single_event-KeepsIn}
use dstc.Events.{
  end_turn, now_turn, again_or_done, sub_timeout, process_timeout_locked, timeout_and_unlock,
  now_round, process_events_now, finish_event, process_pending, pending_round,
  process_pending_events, process_timeout, process_own_epoll_result,
}

-- An invariant that the lock, its release, and the setup on the way keep.
pub record Steady {Pub Sub : Type 0} (P : ℕ → Context Pub Sub → Type 0) (rmc : Rmc Pub Sub)
    (sys : System) : Type 0 where
  pub locks : LockKeeps P
  pub init :
      (n : ℕ) (c : Context Pub Sub)
      → P n c
      → Holds (λ r. P (n + 1) r.1) (lock_and_init_context rmc sys c)

module _ {Pub Sub W : Type 0} (rmc : Rmc Pub Sub) (sys : System) (io : Io (Context Pub Sub))
    (os : Os W) (P : ℕ → Context Pub Sub → Type 0) (keeps : IoKeeps P io)
    (steady : Steady P rmc sys) where
  abbrev pub KeepsIn : ℕ → Outcome (ℕ × Context Pub Sub × W) → Type 0
  KeepsIn n m = Holds (λ r. P n r.1) m

  process_timeout_locked-KeepsWith :
      (n : ℕ) (ctx : Context Pub Sub)
      → P n ctx
      → Holds (λ r. P n r.1) (process_timeout_locked rmc sys io os ctx)
  unfolding process_timeout_locked sub_timeout again_or_done
  process_timeout_locked-KeepsWith n ctx h =
      Holds->>= (λ r. P n r.1) (λ r. P n r.1) (io.pub_timeout_process ctx) _
        (keeps.pub_timeout_process n ctx h)
        λ (res, c) sound.
          Holds-if (λ r. P n r.1) (res == eagain) _ _ sound
            (Holds->>= (λ r. P n r.1) (λ r. P n r.1) (io.sub_timeout_process c) _
              (keeps.sub_timeout_process n c sound) λ r k. k)

  pub timeout_and_unlock-KeepsIn :
      (n res : ℕ) (ctx : Context Pub Sub) (w : W)
      → P (n + 1) ctx
      → KeepsIn n (timeout_and_unlock rmc sys io os res ctx w)
  unfolding timeout_and_unlock
  timeout_and_unlock-KeepsIn n res ctx w h =
      Holds->>= (λ r. P (n + 1) r.1) (λ r. P n r.1) (process_timeout_locked rmc sys io os ctx) _
        (process_timeout_locked-KeepsWith (n + 1) ctx h) λ r k. steady.locks.unlock n r.1 k

  -- An unlock of a lock that is not held leaves it so.
  pub timeout_and_unlock-free :
      (res : ℕ) (ctx : Context Pub Sub) (w : W)
      → P 0 ctx
      → KeepsIn 0 (timeout_and_unlock rmc sys io os res ctx w)
  unfolding timeout_and_unlock
  timeout_and_unlock-free res ctx w h =
      Holds->>= (λ r. P 0 r.1) (λ r. P 0 r.1) (process_timeout_locked rmc sys io os ctx) _
        (process_timeout_locked-KeepsWith 0 ctx h) λ r k. steady.locks.unlock_free r.1 k

  now_round-KeepsIn :
      (n : ℕ) (again : Context Pub Sub → W → Outcome (ℕ × Context Pub Sub × W))
      (m : Outcome (ℕ × Context Pub Sub × W))
      → ((c : Context Pub Sub) (w : W) → P n c → KeepsIn n (again c w))
      → KeepsIn (n + 1) m
      → KeepsIn n (m >>= now_round rmc sys io os again)
  unfolding now_round
  now_round-KeepsIn n again m k h =
      Holds->>= (λ r. P (n + 1) r.1) (λ r. P n r.1) m _ h
        λ (res, c, w) sound.
          Holds-if (λ r. P n r.1) (res == etime) (timeout_and_unlock rmc sys io os etime c w)
            (again (unlock_context c) w) (timeout_and_unlock-KeepsIn n etime c w sound)
            (k (unlock_context c) w (steady.locks.unlock n c sound))

  pub process_events_now-KeepsIn :
      (n retries fuel : ℕ) (ctx : Context Pub Sub) (w : W)
      → P n ctx
      → KeepsIn n (process_events_now rmc sys io os retries fuel ctx w)
  unfolding process_events_now
  process_events_now-KeepsIn n retries zero ctx w h = tt
  process_events_now-KeepsIn n retries (suc fuel) ctx w h =
      now_round-KeepsIn n (process_events_now rmc sys io os retries fuel)
        (process_single_event io os retries (lock_context ctx) w 0)
        (λ c w sound. process_events_now-KeepsIn n retries fuel c w sound)
        (process_single_event-KeepsIn P io keeps os steady.locks n retries (lock_context ctx) w 0
          (steady.locks.lock n ctx h))

  pub now_turn-Holds :
      (n retries : ℕ) (ctx : Context Pub Sub) (w : W)
      → P n ctx
      → Holds (λ r. P n r.1) (now_turn rmc sys io os retries ctx w)
  unfolding now_turn end_turn
  now_turn-Holds n retries ctx w h =
      Holds->>= (λ r. P (n + 1) r.1) (λ r. P n r.1)
        (process_single_event io os retries (lock_context ctx) w 0) _
        (process_single_event-KeepsIn P io keeps os steady.locks n retries (lock_context ctx) w 0
          (steady.locks.lock n ctx h))
        λ (res, c, w') held.
          Holds-if (λ r. P n r.1) (res == etime) _ _
            (Holds->>= (λ r. P n r.1) (λ r. P n r.1) (timeout_and_unlock rmc sys io os etime c w') _
              (timeout_and_unlock-KeepsIn n etime c w' held) λ r k. k)
            (steady.locks.unlock n c held)

  pub finish_event-KeepsIn :
      (n : ℕ) (m : Outcome (ℕ × Context Pub Sub × W))
      → KeepsIn (n + 1) m
      → KeepsIn n (m >>= finish_event rmc sys io os)
  unfolding finish_event
  finish_event-KeepsIn n m h =
      Holds->>= (λ r. P (n + 1) r.1) (λ r. P n r.1) m _ h
        λ (res, c, w) sound.
          Holds-if (λ r. P n r.1) (res == etime) (timeout_and_unlock rmc sys io os res c w)
            (done (res, unlock_context c, w)) (timeout_and_unlock-KeepsIn n res c w sound)
            (steady.locks.unlock n c sound)

  process_pending-Holds :
      (retries fuel : ℕ) (n : ℕ) (ctx : Context Pub Sub) (w : W)
      → P (n + 1) ctx
      → Holds (λ r. P (n + 1) r.0) (process_pending rmc sys io os retries fuel ctx w)
  unfolding process_pending pending_round
  process_pending-Holds retries zero n ctx w h = tt
  process_pending-Holds retries (suc fuel) n ctx w h =
      Holds->>= (λ r. P (n + 1) r.1) (λ r. P (n + 1) r.0)
        (process_single_event io os retries ctx w 0) _
        (process_single_event-KeepsIn P io keeps os steady.locks n retries ctx w 0 h)
        λ (res, c, w') sound.
          Holds-if (λ r. P (n + 1) r.0) (res == etime) (done (c, w'))
            (process_pending rmc sys io os retries fuel c w') sound
            (process_pending-Holds retries fuel n c w' sound)

  -- Code that keeps the invariant under the lock.
  locked-Holds {ℓ} :
      {A : Type ℓ} (n : ℕ) (ctx : Context Pub Sub)
      (body : Context Pub Sub → Outcome (A × Context Pub Sub))
      → P n ctx
      → ((c : Context Pub Sub) → P (n + 1) c → Holds (λ r. P (n + 1) r.1) (body c))
      → Holds (λ r. P n r.1) (locked rmc sys ctx body)
  locked-Holds n ctx body h k =
      Holds->>= (λ r. P (n + 1) r.1) (λ r. P n r.1) (lock_and_init_context rmc sys ctx) _
        (steady.init n ctx h)
        λ r held.
          Holds->>= (λ s. P (n + 1) s.1) (λ s. P n s.1) (body r.1) _ (k r.1 held)
            λ s kept. steady.locks.unlock n s.1 kept

  pub process_pending_events-KeepsWith :
      (retries fuel n : ℕ) (ctx : Context Pub Sub) (w : W)
      → P n ctx
      → Holds (λ r. P n r.1) (process_pending_events rmc sys io os retries fuel ctx w)
  unfolding process_pending_events
  process_pending_events-KeepsWith retries fuel n ctx w h = locked-Holds n ctx _ h λ c held.
      Holds->>= (λ r. P (n + 1) r.0) (λ r. P (n + 1) r.1)
        (process_pending rmc sys io os retries fuel c w) _
        (process_pending-Holds retries fuel n c w held) λ r k. k

  pub process_timeout-KeepsWith :
      (n : ℕ) (ctx : Context Pub Sub)
      → P n ctx
      → Holds (λ r. P n r.1) (process_timeout rmc sys io os ctx)
  unfolding process_timeout
  process_timeout-KeepsWith n ctx h =
      locked-Holds n ctx _ h λ c held. process_timeout_locked-KeepsWith (n + 1) c held

  pub process_own_epoll_result-KeepsWith :
      (n : ℕ) (ctx : Context Pub Sub) (event : Event)
      → P n ctx
      → Holds (λ r. P n r.1) (process_own_epoll_result rmc sys io os ctx event)
  unfolding process_own_epoll_result
  process_own_epoll_result-KeepsWith n ctx event h = locked-Holds n ctx _ h λ c held.
      Holds->>= (P (n + 1)) (λ r. P (n + 1) r.1) _ _
        (process_epoll_result-Keeps P io keeps (n + 1) c event held) λ c k. k
