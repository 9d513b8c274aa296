-- ===== src/Outbox/Waits.antt =====
-- The event loop of dstc.c and the outbox: dstc_process_events takes no call back and adds none, if the
-- calls of rmc do not.
use dstc.Base.{ℕ, ◌^◌, ◌<◌, ◌≡◌, ◌∙◌, refl, arith, List, some, Holds, done, ◌>>=◌}
use dstc.Rmc.{Rmc, System}
use dstc.Context.{Context, deref, lock_context}
use dstc.Setup.{lock_and_init_context}
use dstc.Setup.Laws.{context_initialized_lem}
use dstc.Queue.Frame.{Call}
use dstc.Epoll.{Os, Io}
use dstc.Epoll.Sound.{IoKeeps}
use dstc.Events.{process_events}
use dstc.Events.Sound.{Steady}
use dstc.Events.Waits.{process_events-KeepsIn}
use dstc.Outbox.{QueueLaws, HasTaken}
use dstc.Outbox.Taken.{Represents-lock, Represents-unlock}

module _ {Pub Sub : Type 0} (rmc : Rmc Pub Sub) (sys : System) (sent : Pub → List (List ℕ))
    (node_id : ℕ) (small : rmc.max_payload < 2 ^ 16) (laws : QueueLaws rmc sent) where
  -- The calls that were taken, whether or not the lock is held.
  abbrev pub Took : List Call → ℕ → Context Pub Sub → Type 0
  Took calls n ctx = HasTaken rmc sys sent small node_id calls ctx

  pub Took-Steady : (calls : List Call) → Steady (Took calls) rmc sys
  unfolding lock_and_init_context
  Took-Steady calls = record {
    locks = record {
      lock = λ n c (p, o, r, took).
          (p, o, Represents-lock rmc sys sent node_id small laws c p o r, took);
      unlock = λ n c (p, o, r, took).
          (p, o, Represents-unlock rmc sys sent node_id small laws c p o r, took);
      unlock_free = λ c (p, o, r, took).
          (p, o, Represents-unlock rmc sys sent node_id small laws c p o r, took);
    };
    init = λ n c (p, o, r, took).
        let held = Represents-lock rmc sys sent node_id small laws c p o r in
        let ready = context_initialized_lem (lock_context c) {pub_ctx = p} held.up in
        rw ready (p, o, held, took);
  }

  pub process_events-Took :
      {W : Type 0} (io : Io (Context Pub Sub)) (os : Os W) (retries rounds : ℕ) (calls : List Call)
      (ctx : Context Pub Sub) (w : W) (timeout : ℕ)
      → IoKeeps (Took calls) io
      → Took calls 0 ctx
      → Holds (λ r. Took calls 0 r.1) (process_events rmc sys io os retries rounds ctx w timeout)
  process_events-Took io os retries rounds calls ctx w timeout keeps h =
      process_events-KeepsIn rmc sys io os (Took calls) keeps (Took-Steady calls) retries rounds ctx
        w timeout h

  -- A call of rmc that changes only what rmc keeps of its publisher.
  pub Took-traffic :
      (calls : List Call) (change : Pub → Pub) (n : ℕ) (ctx : Context Pub Sub)
      → ((p : Pub) → (sent (change p) ≡ sent p) × (rmc.pub_node_id (change p) ≡ rmc.pub_node_id p))
      → Took calls n ctx
      → Holds
          (Took calls n)
          (deref ctx.pub_ctx >>= λ p. done (record ctx { pub_ctx = some (change p) }))
  Took-traffic calls change n ctx same (p, o, r, took) = rw r.up (
    change p,
    o,
    record {
      valid = ground arith;
      up = refl;
      own_id = (same p).1 ∙ r.own_id;
      pending_frames = r.pending_frames;
      sent_frames = (same p).0 ∙ r.sent_frames;
    },
    took,
  )
