-- ===== src/Events/Turns.antt =====
-- dstc_process_events(0) of dstc.c as a sequence of rounds, between which the lock is free.
use dstc.Base.{
  ℕ, suc, ◌≡◌, refl, sym, ap, ◌∙◌, ◌==◌, Bool, Bool-cases, inl, inr, if◌then◌else◌, Outcome, true,
  done, exit, fault, out_of_fuel, ◌>>=◌, >>=-assoc,
}
use dstc.Rmc.{Rmc, System}
use dstc.Context.{Context, lock_context, unlock_context}
use dstc.Setup.{etime}
use dstc.Epoll.{Os, Io, process_single_event}
use dstc.Events.{
  timeout_and_unlock, process_timeout_locked, now_round, process_events_now, end_turn, now_turn,
}

module _ {Pub Sub W : Type 0} (rmc : Rmc Pub Sub) (sys : System) (io : Io (Context Pub Sub))
    (os : Os W) where
  -- What follows a round.
  abbrev pub go_on :
      (Context Pub Sub → W → Outcome (ℕ × Context Pub Sub × W))
      → Bool × Context Pub Sub × W
      → Outcome (ℕ × Context Pub Sub × W)
  go_on again (returned, ctx, w) = if returned then done (etime, ctx, w) else again ctx w

  abbrev unlocked : W → ℕ × Context Pub Sub → Outcome (ℕ × Context Pub Sub × W)
  unlocked w (res, ctx) = done (etime, unlock_context ctx, w)

  abbrev ended : ℕ × Context Pub Sub × W → Outcome (Bool × Context Pub Sub × W)
  ended (res, ctx, w) = done (true, ctx, w)

  at_end :
      (again : Context Pub Sub → W → Outcome (ℕ × Context Pub Sub × W)) (w : W)
      (m : Outcome (ℕ × Context Pub Sub))
      → (m >>= unlocked w) ≡ (((m >>= unlocked w) >>= ended) >>= go_on again)
  at_end again w (done (res, ctx)) = refl
  at_end again w (exit n) = refl
  at_end again w fault = refl
  at_end again w out_of_fuel = refl

  now_round-end_turn :
      (again : Context Pub Sub → W → Outcome (ℕ × Context Pub Sub × W))
      (r : ℕ × Context Pub Sub × W)
      → now_round rmc sys io os again r ≡ (end_turn rmc sys io os r >>= go_on again)
  unfolding now_round end_turn timeout_and_unlock
  now_round-end_turn again (res, ctx, w) = elim (Bool-cases (res == etime)) [
    | inl late ↦ rw late (at_end again w (process_timeout_locked rmc sys io os ctx))
    | inr event ↦ rw event refl
  ]

  -- dstc_process_events(0) makes a round, and more of them until one finds no event.
  pub process_events_now-now_turn :
      (retries fuel : ℕ) (ctx : Context Pub Sub) (w : W)
      → process_events_now rmc sys io os retries (suc fuel) ctx w ≡ (
          now_turn rmc sys io os retries ctx w
          >>= go_on (process_events_now rmc sys io os retries fuel))
  unfolding process_events_now now_turn
  process_events_now-now_turn retries fuel ctx w =
      let again = process_events_now rmc sys io os retries fuel in
      let m = process_single_event io os retries (lock_context ctx) w 0 in
      ap (λ (f : ℕ × Context Pub Sub × W → Outcome (ℕ × Context Pub Sub × W)). m >>= f)
        (λ i r. now_round-end_turn again r i)
      ∙ sym (>>=-assoc m (end_turn rmc sys io os) (go_on again))
