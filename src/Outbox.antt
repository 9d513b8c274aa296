-- ===== src/Outbox.antt =====
-- The outbound side of dstc.c, `_dstc_queue` and `_queue_pending_calls`, as an outbox: the packets that
-- rmc was handed, each a list of calls, and the calls that wait.
pub mod Steps
pub mod Runs
pub mod Taken
pub mod Delivery
pub mod Waits
use dstc.Base.{
  ℕ, ◌+◌, ◌^◌, ◌≤◌, ◌<◌, ◌≡◌, ◌⊎◌, refl, sym, ap, ◌∙◌, Bool, true, false, List, [], ◌∷◌, ◌++◌, some,
  map, arith, length, take, append-nil, append_assoc, flatten-append, ◌==◌, if◌then◌else◌, Outcome,
  done, ◌>>=◌, inl, inr, Bool-cases, ltb, ◌&&◌, if_true, if_false,
}
use mathlib.Core.List.{flatten}
use dstc.Rmc.{Rmc, System}
use dstc.Context.{Context, pending}
use dstc.Context.Valid.{IsValid}
use dstc.Setup.{ebusy}
use dstc.Queue.{queue, queue_pending_calls}
use dstc.Queue.Frame.{Call, frame, length-frame, call_name, call_ref, call_arg}
use dstc.Queue.Laws.{
  stored, pending-stored, stored-IsValid, queue-stored, queue-full, queue_pending_calls-sent,
  queue_pending_calls-held,
}
use dstc.Dispatch.Deliver.{IsSendable, IsSendable-IsCall}
use dstc.Dispatch.Incoming.{frames, frames-snoc}

-- What rmc promises of `rmc_pub_queue_packet`, where `sent` are the packets that a publisher was
-- handed: it does not fail unless traffic is suspended, and a packet that it takes is the next one.
pub record QueueLaws {Pub Sub : Type 0} (rmc : Rmc Pub Sub) (sent : Pub → List (List ℕ))
    : Type 0 where
  pub accepted :
      (bytes : List ℕ) (p : Pub)
      → rmc.pub_traffic_suspended p ≡ 0
      → (rmc.pub_queue_packet bytes p).0 ≡ 0
  pub sent-queue :
      (bytes : List ℕ) (p : Pub)
      → (rmc.pub_queue_packet bytes p).0 ≡ 0
      → sent (rmc.pub_queue_packet bytes p).1 ≡ sent p ++ (bytes ∷ [])
  pub node_id-queue :
      (bytes : List ℕ) (p : Pub)
      → rmc.pub_node_id (rmc.pub_queue_packet bytes p).1 ≡ rmc.pub_node_id p

pub record Outbox : Type 0 where
  pub packets : List (List Call)
  pub waiting : List Call

-- All calls that were taken, in order.
abbrev pub taken : Outbox → List Call
taken o = flatten o.packets ++ o.waiting

flatten-snoc :
    (xss : List (List Call)) (xs : List Call) → flatten (xss ++ xs ∷ []) ≡ flatten xss ++ xs
unfolding flatten
flatten-snoc xss xs = flatten-append xss (xs ∷ []) ∙ ap (◌++◌ (flatten xss)) (append-nil xs)

pub map-snoc :
    {A B : Type 0} (f : A → B) (xs : List A) (x : A) → map f (xs ++ x ∷ []) ≡ map f xs ++ f x ∷ []
map-snoc f [] x = refl
map-snoc f (y ∷ xs) x = ap (◌∷◌ (f y)) (map-snoc f xs x)

-- One packet more, and nothing waits.
abbrev pub flushed : Outbox → Outbox
flushed o = record { packets = o.packets ++ o.waiting ∷ []; waiting = [] }

pub taken-flushed : (o : Outbox) → taken (flushed o) ≡ taken o
taken-flushed o =
    append-nil (flatten (o.packets ++ o.waiting ∷ [])) ∙ flatten-snoc o.packets o.waiting

abbrev pub posted : Outbox → Call → Outbox
posted o call = record o { waiting = o.waiting ++ call ∷ [] }

pub taken-posted : (o : Outbox) (call : Call) → taken (posted o call) ≡ taken o ++ call ∷ []
taken-posted o call = sym (append_assoc (flatten o.packets) o.waiting (call ∷ []))

module _ {Pub Sub : Type 0} (rmc : Rmc Pub Sub) (sys : System) (sent : Pub → List (List ℕ))
    (small : rmc.max_payload < 2 ^ 16) where
  -- A context of the node that is set up, with its publisher, stands for an outbox.
  pub record Represents (node_id : ℕ) (ctx : Context Pub Sub) (pub_ctx : Pub) (o : Outbox)
      : Type 0 where
    pub valid : IsValid rmc.max_payload ctx
    pub up : ctx.pub_ctx ≡ some pub_ctx
    pub own_id : rmc.pub_node_id pub_ctx ≡ node_id
    pub pending_frames : pending ctx ≡ frames node_id o.waiting
    pub sent_frames : sent pub_ctx ≡ map (frames node_id) o.packets

  -- A context that stands for an outbox with these calls taken.
  abbrev pub HasTaken : ℕ → List Call → Context Pub Sub → Type 0
  HasTaken node_id calls ctx =
      (p : Pub) × (o : Outbox) × Represents node_id ctx p o × (taken o ≡ calls)
