-- ===== src/Epoll/Laws.antt =====
-- epoll.c, the wait for events and the loop over them.
use dstc.Base.{
  ℕ, zero, suc, ◌<◌, ◌≡◌, ◌≢◌, refl, List, [], ◌∷◌, arith, length, get_or, Option, Outcome, done,
  out_of_fuel, ◌>>=◌, >>=-done, >>=-assoc, >>=-cong, ◌∙◌, sym, ap,
}
use dstc.Context.{Context}
use dstc.Epoll.{
  Event, Wait, interrupted, failed, ready, Os, Io, process_epoll_result, process_events_array,
  no_event, wait_again, wait_for_events,
}

module _ {Pub Sub : Type 0} (io : Io (Context Pub Sub)) where
  -- The events one after the other, the last one first.
  unfoldable pub process_last_first : List Event → Context Pub Sub → Outcome (Context Pub Sub)
  process_last_first [] ctx = done ctx
  process_last_first (e ∷ events) ctx =
      process_last_first events ctx >>= λ ctx. process_epoll_result io ctx e

  process_events_array-cons :
      (e : Event) (events : List Event) (n : ℕ) (ctx : Context Pub Sub)
      → process_events_array io (e ∷ events) (suc n) ctx
        ≡ (process_events_array io events n ctx >>= λ ctx. process_epoll_result io ctx e)
  unfolding process_events_array
  process_events_array-cons e events zero ctx = >>=-done (process_epoll_result io ctx e)
  process_events_array-cons e events (suc n) ctx =
      let first = process_epoll_result io ctx (get_or events n no_event) in
      >>=-cong first (process_events_array io (e ∷ events) (suc n))
        (λ c. process_events_array io events n c >>= λ c'. process_epoll_result io c' e)
        (process_events_array-cons e events n)
      ∙ sym
          (>>=-assoc first (process_events_array io events n) (λ c'. process_epoll_result io c' e))

  -- The events that one wait returned are all processed, each once, the last one first.
  pub process_events_array-length :
      (events : List Event) (ctx : Context Pub Sub)
      → process_events_array io events (length events) ctx ≡ process_last_first events ctx
  unfolding process_last_first process_events_array
  process_events_array-length [] ctx = refl
  process_events_array-length (e ∷ events) ctx =
      process_events_array-cons e events (length events) ctx
      ∙ ap (λ (m : Outcome (Context Pub Sub)). m >>= λ c. process_epoll_result io c e)
          (process_events_array-length events ctx)

  module _ {W : Type 0} (os : Os W) where
    wait_again-ne-out_of_fuel :
        (again : W → Outcome (Wait × W)) (r : Wait × W)
        → (r.0 ≡ interrupted → again r.1 ≢ out_of_fuel)
        → wait_again io os again r ≢ out_of_fuel
    unfolding wait_again
    wait_again-ne-out_of_fuel again (interrupted, w) h = h refl
    wait_again-ne-out_of_fuel again (failed, w) h = λ e. cc
    wait_again-ne-out_of_fuel again (ready events, w) h = λ e. cc

    -- The loop around epoll_wait ends where signals interrupt it finitely often: if a number falls
    -- with each interrupt, more rounds than this number are enough.
    pub wait_for_events-ne-out_of_fuel :
        (fd : Option ℕ) (timeout_msec : ℕ) (left : W → ℕ)
        → ((w : W)
            → (os.epoll_wait fd timeout_msec w).0 ≡ interrupted
            → left (os.epoll_wait fd timeout_msec w).1 < left w)
        → (fuel : ℕ) (w : W) → left w < fuel
        → wait_for_events io os fuel fd timeout_msec w ≢ out_of_fuel
    unfolding wait_for_events
    wait_for_events-ne-out_of_fuel fd timeout_msec left fewer zero w h = omega arith
    wait_for_events-ne-out_of_fuel fd timeout_msec left fewer (suc fuel) w h =
        wait_again-ne-out_of_fuel (wait_for_events io os fuel fd timeout_msec)
          (os.epoll_wait fd timeout_msec w)
          λ e.
            let less = fewer w e in
            wait_for_events-ne-out_of_fuel fd timeout_msec left fewer fuel
              (os.epoll_wait fd timeout_msec w).1 (omega arith)
