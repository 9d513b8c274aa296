-- ===== src/Lifecycle/Loop.antt =====
-- The life of a process with its event loop: the functions of dstc.c that wait for events and run the
-- timers, from inside of which rmc makes callbacks.
use dstc.Base.{
  ℕ, ◌^◌, ◌<◌, ◌≡◌, refl, List, [], ◌∷◌, Outcome, done, ◌>>=◌, Holds, Holds->>=, Holds-elim,
}
use dstc.Rmc.{Rmc, System}
use dstc.Context.{Context, default_context}
use dstc.Context.Valid.{IsValid, default_context-IsValid}
use dstc.Context.Sound.{
  Sound, KeepsWith, Keeps-with, lock_context-Sound, unlock_context-Sound, unlock_context-free,
}
use dstc.Setup.Sound.{lock_and_init_context-KeepsWith}
use dstc.Dispatch.{Invocation}
use dstc.Dispatch.Sound.{AppKeeps}
use dstc.Epoll.{Os, Io}
use dstc.Epoll.Sound.{IoKeeps}
use dstc.Events.{process_events, process_pending_events, process_timeout, process_own_epoll_result}
use dstc.Events.Sound.{
  Steady, process_pending_events-KeepsWith, process_timeout-KeepsWith,
  process_own_epoll_result-KeepsWith,
}
use dstc.Events.Waits.{process_events-KeepsIn}
use dstc.Lifecycle.{Event, react, live}
use dstc.Lifecycle.Sound.{react-Keeps, live-Keeps}

Sound-Steady :
    {Pub Sub : Type 0} (rmc : Rmc Pub Sub) (sys : System)
    → Steady (Sound {Pub = Pub} {Sub = Sub} rmc.max_payload) rmc sys
Sound-Steady rmc sys = record {
  locks = record {
    lock = lock_context-Sound rmc.max_payload;
    unlock = unlock_context-Sound rmc.max_payload;
    unlock_free = unlock_context-free rmc.max_payload;
  };
  init = lock_and_init_context-KeepsWith rmc sys;
}

-- What a thread that does not hold the lock can do. The numbers at `wait` and `pending` bound how
-- often a wait is interrupted, and the rounds; the last one of `wait` is the timeout.
pub data Step : Type 0 where
  happens : Event → Step
  wait : ℕ → ℕ → ℕ → Step
  pending : ℕ → ℕ → Step
  timers : Step
  epoll_result : dstc.Epoll.Event → Step

-- Which callbacks rmc makes inside a call on the connection with an index, or inside a call for its
-- timers; `result` is what calls return.
pub record Script : Type 0 where
  pub on_read : ℕ → List Event
  pub on_write : ℕ → List Event
  pub on_close : ℕ → List Event
  pub on_timeout : List Event
  pub result : ℕ

module _ {Pub Sub : Type 0} (rmc : Rmc Pub Sub) (sys : System)
    (app : Invocation → Context Pub Sub → Outcome (Context Pub Sub)) where
  abbrev pub answer : ℕ → Outcome (Context Pub Sub) → Outcome (ℕ × Context Pub Sub)
  answer n m = m >>= λ c. done (n, c)

  -- Calls of rmc that change the context by its callbacks alone.
  unfoldable pub scripted_io : Script → Script → Io (Context Pub Sub)
  scripted_io pub_script sub_script = record {
    pub_read = λ i c. live rmc sys app c (pub_script.on_read i);
    sub_read = λ i c. live rmc sys app c (sub_script.on_read i);
    pub_write = λ i c. answer pub_script.result (live rmc sys app c (pub_script.on_write i));
    sub_write = λ i c. answer sub_script.result (live rmc sys app c (sub_script.on_write i));
    pub_close_connection = λ i c. live rmc sys app c (pub_script.on_close i);
    sub_close_connection = λ i c. live rmc sys app c (sub_script.on_close i);
    pub_timeout_process = λ c. answer pub_script.result (live rmc sys app c pub_script.on_timeout);
    sub_timeout_process = λ c. answer sub_script.result (live rmc sys app c sub_script.on_timeout);
  }

  module _ {W : Type 0} (io : Io (Context Pub Sub)) (os : Os W) where
    unfoldable pub take_step : Context Pub Sub → W → Step → Outcome (Context Pub Sub × W)
    take_step ctx w (happens e) = react rmc sys app ctx e >>= λ ctx. done (ctx, w)
    take_step ctx w (wait retries fuel timeout_rel) =
        process_events rmc sys io os retries fuel ctx w timeout_rel >>= λ r. done (r.1, r.2)
    take_step ctx w (pending retries fuel) =
        process_pending_events rmc sys io os retries fuel ctx w >>= λ r. done (r.1, r.0.1)
    take_step ctx w timers = process_timeout rmc sys io os ctx >>= λ r. done (r.1, w)
    take_step ctx w (epoll_result event) =
        process_own_epoll_result rmc sys io os ctx event >>= λ r. done (r.1, w)

    unfoldable pub run : Context Pub Sub → W → List Step → Outcome (Context Pub Sub × W)
    run ctx w [] = done (ctx, w)
    run ctx w (s ∷ ss) = take_step ctx w s >>= λ r. run r.0 r.1 ss

  module _ (small : rmc.max_payload < 2 ^ 32) (app_keeps : AppKeeps rmc.max_payload app) where
    live_answer-KeepsWith :
        (n k : ℕ) (c : Context Pub Sub) (es : List Event)
        → Sound rmc.max_payload n c
        → KeepsWith rmc.max_payload n (live rmc sys app c es >>= λ c. done (k, c))
    live_answer-KeepsWith n k c es h =
        Keeps-with rmc.max_payload n k (live rmc sys app c es)
          (live-Keeps rmc sys small app app_keeps n c es h)

    pub scripted_io-KeepsSound :
        (pub_script sub_script : Script)
        → IoKeeps (Sound rmc.max_payload) (scripted_io pub_script sub_script)
    unfolding scripted_io
    scripted_io-KeepsSound p s = record {
      pub_read = λ i n c h. live-Keeps rmc sys small app app_keeps n c (p.on_read i) h;
      sub_read = λ i n c h. live-Keeps rmc sys small app app_keeps n c (s.on_read i) h;
      pub_write = λ i n c h. live_answer-KeepsWith n p.result c (p.on_write i) h;
      sub_write = λ i n c h. live_answer-KeepsWith n s.result c (s.on_write i) h;
      pub_close_connection = λ i n c h. live-Keeps rmc sys small app app_keeps n c (p.on_close i) h;
      sub_close_connection = λ i n c h. live-Keeps rmc sys small app app_keeps n c (s.on_close i) h;
      pub_timeout_process = λ n c h. live_answer-KeepsWith n p.result c p.on_timeout h;
      sub_timeout_process = λ n c h. live_answer-KeepsWith n s.result c s.on_timeout h;
    }

    module _ {W : Type 0} (io : Io (Context Pub Sub)) (os : Os W)
        (keeps : IoKeeps (Sound rmc.max_payload) io) where
      abbrev SoundFirst : Context Pub Sub × W → Type 0
      SoundFirst r = Sound rmc.max_payload 0 r.0

      take_step-Holds :
          (ctx : Context Pub Sub) (w : W) (s : Step)
          → Sound rmc.max_payload 0 ctx
          → Holds SoundFirst (take_step io os ctx w s)
      unfolding take_step
      take_step-Holds ctx w (happens e) h =
          Holds->>= (Sound rmc.max_payload 0) SoundFirst (react rmc sys app ctx e) _
            (react-Keeps rmc sys small app app_keeps 0 ctx e h) λ c k. k
      take_step-Holds ctx w (wait retries fuel timeout_rel) h =
          Holds->>= (λ r. Sound rmc.max_payload 0 r.1) SoundFirst
            (process_events rmc sys io os retries fuel ctx w timeout_rel) _
            (process_events-KeepsIn rmc sys io os (Sound rmc.max_payload) keeps
              (Sound-Steady rmc sys) retries fuel ctx w timeout_rel h)
            λ r k. k
      take_step-Holds ctx w (pending retries fuel) h =
          Holds->>= (λ r. Sound rmc.max_payload 0 r.1) SoundFirst
            (process_pending_events rmc sys io os retries fuel ctx w) _
            (process_pending_events-KeepsWith rmc sys io os (Sound rmc.max_payload) keeps
              (Sound-Steady rmc sys) retries fuel 0 ctx w h)
            λ r k. k
      take_step-Holds ctx w timers h =
          Holds->>= (λ r. Sound rmc.max_payload 0 r.1) SoundFirst
            (process_timeout rmc sys io os ctx) _
            (process_timeout-KeepsWith rmc sys io os (Sound rmc.max_payload) keeps
              (Sound-Steady rmc sys) 0 ctx h)
            λ r k. k
      take_step-Holds ctx w (epoll_result event) h =
          Holds->>= (λ r. Sound rmc.max_payload 0 r.1) SoundFirst
            (process_own_epoll_result rmc sys io os ctx event) _
            (process_own_epoll_result-KeepsWith rmc sys io os (Sound rmc.max_payload) keeps
              (Sound-Steady rmc sys) 0 ctx event h)
            λ r k. k

      run-Holds :
          (ctx : Context Pub Sub) (w : W) (ss : List Step)
          → Sound rmc.max_payload 0 ctx
          → Holds SoundFirst (run io os ctx w ss)
      unfolding run
      run-Holds ctx w [] h = h
      run-Holds ctx w (s ∷ ss) h =
          Holds->>= SoundFirst SoundFirst (take_step io os ctx w s) _ (take_step-Holds ctx w s h)
            λ r k. run-Holds r.0 r.1 ss k

      -- Whatever a process does, in any order, from _dstc_default_context on, with RMC_MAX_PAYLOAD
      -- below 2^32: calls of the API, among them dstc_process_events with any timeout,
      -- dstc_process_pending_events, dstc_process_timeout and dstc_process_epoll_result, and what
      -- rmc tells it: packets with any bytes, control messages, subscriptions and disconnections.
      -- If all of it returns, the context is valid and its lock is let go. This is so for every
      -- clock and epoll_wait, provided that the application's functions, and rmc's calls with the
      -- callbacks they make, leave a valid context valid and the lock as often held as they find
      -- it.
      pub run-Sound :
          (w : W) (ss : List Step) {ctx : Context Pub Sub} {w' : W}
          → run io os (default_context rmc.max_payload) w ss ≡ done (ctx, w')
          → IsValid rmc.max_payload ctx × (ctx.lock ≡ 0)
      unfolding default_context
      run-Sound w ss e =
          Holds-elim SoundFirst
            (run-Holds (default_context rmc.max_payload) w ss
              (default_context-IsValid rmc.max_payload, refl))
            e
