-- ===== src/Tests/ManyExamples.antt =====
-- examples/many_arguments at a concrete call: the last two numbers are swapped.
use dstc.Base.{
  ℕ, ◌≡◌, ◌≢◌, ◌⊎◌, refl, arith, List, [], ◌∷◌, some, Outcome, done, exit, replicate, set,
}
use dstc.Context.{Context, default_context, copy_name, lock_context, unlock_context, no_server}
use dstc.Symtab.Local.{register_server_function, add_server}
use dstc.Dispatch.{Invocation, process_packet}
use dstc.Rpc.{IsReady}
use dstc.Examples.Stress.Order.{in_a_row}
use dstc.Examples.Many.{many_name, dstc_server_many_arguments, dstc_many_arguments}
use dstc.Examples.Many.Check.{many_arguments-checked}
use dstc.Tests.Network.{TestPub, TestSub, test_sys, node_7}
use dstc.Tests.ElementExamples.{client_rmc, client, client-IsValid}

abbrev swapped : List ℕ
swapped = 1 ∷ 2 ∷ 3 ∷ 4 ∷ 5 ∷ 6 ∷ 7 ∷ 8 ∷ 9 ∷ 10 ∷ 11 ∷ 12 ∷ 13 ∷ 14 ∷ 16 ∷ 15 ∷ []

abbrev checking : Context TestPub TestSub
checking = record client {
  server_func = set (replicate 128 no_server) 0 (record { func_name = many_name; server_func = 9 });
  server_func_ind = 1;
}

abbrev check_app : Invocation → Context TestPub TestSub → Outcome (Context TestPub TestSub)
check_app inv c = dstc_server_many_arguments inv.payload c

register_many : register_server_function client many_name 9 ≡ done checking
unfolding register_server_function add_server copy_name lock_context unlock_context default_context
register_many = refl

client-IsReady : IsReady client_rmc client node_7
unfolding default_context
client-IsReady = record {
  valid = client-IsValid;
  up = refl;
  off = refl;
  empty = refl;
  free = refl;
  takes = λ bytes. refl;
  small = omega arith;
  word = omega arith;
}

many_arguments-checked_example :
    (client' : Context TestPub TestSub) × (packet : List ℕ) × (dstc_many_arguments client_rmc
        test_sys client swapped
      ≡ done (0, client'))
    × (client'.pub_ctx ≡ some (client_rmc.pub_queue_packet packet node_7).1)
    × (((swapped ≡ in_a_row 1 16) × (process_packet check_app checking packet ≡ exit 0))
        ⊎ ((swapped ≢ in_a_row 1 16) × (process_packet check_app checking packet ≡ exit 255)))
many_arguments-checked_example =
    many_arguments-checked client_rmc test_sys client node_7 swapped check_app 300 9 client checking
      client-IsReady refl (omega arith) (omega arith) client-IsValid register_many (λ e. cc)
      (λ inv c e. refl)
