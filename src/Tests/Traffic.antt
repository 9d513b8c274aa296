-- ===== src/Tests/Traffic.antt =====
-- A client whose rmc is suspended until its connection is writable, for the tests of the stress programs.
use dstc.Base.{
  ◌^◌, ◌≡◌, refl, arith, true, false, List, [], ◌∷◌, some, Outcome, done, ◌>>=◌, Holds->>=,
  Holds-elim,
}
use dstc.Context.{Context, deref, default_context}
use dstc.Queue.Frame.{Call}
use dstc.Dispatch.Incoming.{frames}
use dstc.Epoll.{Event, Wait, ready, Os, Io}
use dstc.Epoll.Sound.{IoKeeps}
use dstc.Outbox.{Represents}
use dstc.Outbox.Waits.{Took, Took-traffic}
use dstc.Outbox.Delivery.{empty_outbox}
use dstc.Events.Returns.{IoReturns}
use dstc.Examples.Threads.Returns.{Ready}
use dstc.Tests.Network.{TestPub, TestSub, test_rmc, test_sys, fresh}
use dstc.Tests.OutboxExamples.{sent, test_laws}

abbrev pub node_busy : TestPub
node_busy = record { node = 7; suspended = 1; packets = [] }

abbrev pub starved : Context TestPub TestSub
starved = record fresh { pub_ctx = some node_busy; pub_is_buffering = true }

pub starved-empty : Represents test_rmc test_sys sent (omega arith) 7 starved node_busy empty_outbox
unfolding default_context frames
starved-empty = record {
  valid = omega arith;
  up = refl;
  own_id = refl;
  pending_frames = refl;
  sent_frames = refl;
}

abbrev pub resume : TestPub → TestPub
resume p = record p { suspended = 0 }

abbrev pub resumed : Context TestPub TestSub → Outcome (Context TestPub TestSub)
resumed c = deref c.pub_ctx >>= λ p. done (record c { pub_ctx = some (resume p) })

-- A write on a connection of the publisher ends the suspension.
abbrev pub resuming_io : Io (Context TestPub TestSub)
resuming_io = record {
  pub_read = λ i c. done c;
  sub_read = λ i c. done c;
  pub_write = λ i c. resumed c >>= λ c. done (0, c);
  sub_write = λ i c. done (0, c);
  pub_close_connection = λ i c. done c;
  sub_close_connection = λ i c. done c;
  pub_timeout_process = λ c. done (0, c);
  sub_timeout_process = λ c. done (0, c);
}

pub resuming_io-IoKeeps :
    (calls : List Call)
    → IoKeeps (Took test_rmc test_sys sent 7 (omega arith) test_laws calls) resuming_io
resuming_io-IoKeeps calls = record {
  pub_read = λ i n c h. h;
  sub_read = λ i n c h. h;
  pub_write = λ i n c h.
      let P = Took test_rmc test_sys sent 7 (omega arith) test_laws calls in
      Holds->>= (P n) (λ r. P n r.1) (resumed c) _
        (Took-traffic test_rmc test_sys sent 7 (omega arith) test_laws calls resume n c
          (λ p. (refl, refl)) h)
        λ c k. k;
  sub_write = λ i n c h. h;
  pub_close_connection = λ i n c h. h;
  sub_close_connection = λ i n c h. h;
  pub_timeout_process = λ n c h. h;
  sub_timeout_process = λ n c h. h;
}

-- The connection is writable at first, and then there is nothing.
abbrev pub one_event : List Wait
one_event =
    ready (record { data_u32 = 2 ^ 15; epollin = false; epollout = true } ∷ []) ∷ ready [] ∷ []

-- Waits that answer with the events to come, and then with none.
abbrev pub next_events : List (List Event) → List Event
next_events [] = []
next_events (e ∷ w) = e

abbrev pub later_events : List (List Event) → List (List Event)
later_events [] = []
later_events (e ∷ w) = w

abbrev pub answering_os : Os (List (List Event))
answering_os = record {
  epoll_ctl_add = λ fd d e w. (true, w);
  epoll_ctl_mod = λ fd d e w. (true, w);
  epoll_ctl_del = λ fd d w. (true, w);
  epoll_wait = λ fd t w. (ready (next_events w), later_events w);
  clock_gettime = λ w. ((2, 5000000), w);
  mutex_trylock = λ w. (true, w);
  mutex_timedlock = λ t w. (true, w);
}

-- The same calls of rmc return.
pub resuming_io-IoReturns :
    IoReturns
      (Ready test_rmc test_sys resuming_io answering_os 4 sent 7 (omega arith) test_laws 3)
      resuming_io
resuming_io-IoReturns = record {
  pub_read = λ i c h. (c, refl, h);
  sub_read = λ i c h. (c, refl, h);
  pub_write = λ i c ((calls, (p, o, r, took)), same).
      let resuming : resumed c ≡ done (record c { pub_ctx = some (resume p) }) = rw r.up refl in
      let h =
        Took-traffic test_rmc test_sys sent 7 (omega arith) test_laws calls resume 0 c
          (λ p. (refl, refl)) (p, o, r, took) in
      (
        (0, record c { pub_ctx = some (resume p) }),
        rw resuming refl,
        (
          (
            calls,
            Holds-elim (Took test_rmc test_sys sent 7 (omega arith) test_laws calls 0) h resuming,
          ),
          same,
        ),
      );
  sub_write = λ i c h. (_, refl, h);
  pub_close_connection = λ i c h. (c, refl, h);
  sub_close_connection = λ i c h. (c, refl, h);
  pub_timeout_process = λ c h. (_, refl, h);
  sub_timeout_process = λ c h. (_, refl, h);
}
