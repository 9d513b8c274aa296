-- ===== src/Tests/World.antt =====
-- A world for the tests of the event loop: the results of the waits to come, and a clock that stands.
use dstc.Base.{ℕ, refl, suc, ◌+◌, true, false, List, [], ◌∷◌, Option, none, some, done}
use dstc.Context.{Context}
use dstc.Epoll.{Wait, failed, ready, Os, Io}
use dstc.Examples.Statics.{Statics}
use dstc.Tests.Network.{TestPub, TestSub}

abbrev pub next_wait : Option ℕ → ℕ → List Wait → Wait
next_wait none t waits = failed
next_wait (some fd) t [] = ready []
next_wait (some fd) t (r ∷ waits) = r

abbrev pub later_waits : List Wait → List Wait
later_waits [] = []
later_waits (r ∷ waits) = waits

abbrev pub test_os : Os (List Wait)
test_os = record {
  epoll_ctl_add = λ fd d e w. (true, w);
  epoll_ctl_mod = λ fd d e w. (true, w);
  epoll_ctl_del = λ fd d w. (false, w);
  epoll_wait = λ fd t w. (next_wait fd t w, later_waits w);
  clock_gettime = λ w. ((2, 5000000), w);
  mutex_trylock = λ w. (false, w);
  mutex_timedlock = λ t w. (true, w);
}

-- What is read is added to the callback counter, and a write fails on every connection but 0.
abbrev pub test_io : Io (Context TestPub TestSub)
test_io = record {
  pub_read = λ i c. done (record c { client_callback_count = c.client_callback_count + i });
  sub_read = λ i c. done (record c { client_callback_count = c.client_callback_count + (10 + i) });
  pub_write = λ i c. done (i, c);
  sub_write = λ i c. done (i, c);
  pub_close_connection = λ i c. done (record c { client_func_ind = suc c.client_func_ind });
  sub_close_connection = λ i c. done (record c { client_func_ind = suc c.client_func_ind });
  pub_timeout_process = λ c. done (0, c);
  sub_timeout_process = λ c. done (0, c);
}

-- A world in which nothing happens.
abbrev pub quiet_os : Os (Unit {0})
quiet_os = record {
  epoll_ctl_add = λ fd d e w. (true, w);
  epoll_ctl_mod = λ fd d e w. (true, w);
  epoll_ctl_del = λ fd d w. (false, w);
  epoll_wait = λ fd t w. (ready [], w);
  clock_gettime = λ w. ((2, 5000000), w);
  mutex_trylock = λ w. (true, w);
  mutex_timedlock = λ t w. (true, w);
}

abbrev pub quiet_io : {S : Type 0} → Io (Context TestPub S)
quiet_io = record {
  pub_read = λ i c. done c;
  sub_read = λ i c. done c;
  pub_write = λ i c. done (0, c);
  sub_write = λ i c. done (0, c);
  pub_close_connection = λ i c. done c;
  sub_close_connection = λ i c. done c;
  pub_timeout_process = λ c. done (0, c);
  sub_timeout_process = λ c. done (0, c);
}

abbrev pub no_world : {S : Type 0} → Statics (Context TestPub S) (Unit {0})
no_world = record { read = λ c. tt; write = λ w c. c; read-write = λ w c. refl }
