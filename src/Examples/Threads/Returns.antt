-- ===== src/Examples/Threads/Returns.antt =====
-- The threads of examples/thread_stress/thread_stress_client.c get through their turns.
use dstc.Base.{ℕ, ◌^◌, ◌<◌, ◌≡◌, List, some}
use dstc.Rmc.{Rmc, System}
use dstc.Context.{Context}
use dstc.Epoll.{Os, Io}
use dstc.Events.Returns.{Returns}
use dstc.Queue.Frame.{Call}
use dstc.Outbox.{QueueLaws, HasTaken}

module _ {Pub Sub W : Type 0} (rmc : Rmc Pub Sub) (sys : System) (io : Io (Context Pub Sub))
    (os : Os W) (retries : ℕ) (sent : Pub → List (List ℕ)) (node_id : ℕ)
    (small : rmc.max_payload < 2 ^ 16) (laws : QueueLaws rmc sent) (fd : ℕ) where
  -- A context that stands for an outbox, and waits on this descriptor.
  abbrev pub Ready : Context Pub Sub → Type 0
  Ready ctx =
      ((calls : List Call) × HasTaken rmc sys sent small node_id calls ctx)
      × (ctx.epoll_fd ≡ some fd)
