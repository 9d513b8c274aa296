-- ===== src/Tests/RpcExamples.antt =====
-- A remote call at concrete inputs: f(dstc_dynamic_data_t, uint8_t) on two nodes.
use dstc.Base.{
  ℕ, ◌≡◌, refl, arith, List, [], ◌∷◌, Outcome, done, ◌>>=◌, map, length, set, replicate,
}
use dstc.Context.{
  Context, default_context, pending, copy_name, lock_context, unlock_context, no_server,
  no_callback,
}
use dstc.Context.Valid.{IsValid}
use dstc.Symtab.Local.{register_server_function, add_server}
use dstc.Dispatch.{Invocation, process_packet}
use dstc.Args.{
  Arg, dynamic, fixed, param, deserialize, deserialize_argument, read_bytes, client_function,
  callback_function, server_function, size_argument, size_arguments,
}
use dstc.Wire.{le_value}
use dstc.Args.RoundTrip.{view}
use dstc.Rpc.{remote_call}
use dstc.Rpc.Reply.{callback_call}
use dstc.Rpc.OneShot.{first_reply, process_packet-replies}
use dstc.Callbacks.{find_ref, free_slot, fill_slot, activate_callback, find_callback_by_ref}
use dstc.Queue.Frame.{reply}
use dstc.Dispatch.Incoming.{frames}
use dstc.Tests.Network.{
  TestPub, TestSub, test_rmc, test_sys, node_7, fresh, collecting, hi, counting,
}

abbrev two_args : List Arg
two_args = dynamic 2 (1 ∷ 2 ∷ 3 ∷ []) ∷ fixed 1 (9 ∷ []) ∷ []

abbrev note : List Arg → Context TestPub TestSub → Outcome (Context TestPub TestSub)
note args ctx = done (record ctx { client_callback_count = length args })

abbrev serving : Invocation → Context TestPub TestSub → Outcome (Context TestPub TestSub)
serving inv ctx = server_function (map param two_args) note inv.payload ctx

abbrev with_hi : Context TestPub TestSub
with_hi = record fresh {
  server_func = set (replicate 128 no_server) 0 (record { func_name = hi; server_func = 9 });
  server_func_ind = 1;
}

register_hi : register_server_function fresh hi 9 ≡ done with_hi
unfolding register_server_function add_server copy_name lock_context unlock_context default_context
register_hi = refl

fresh-IsValid : IsValid 64 fresh
unfolding default_context
fresh-IsValid = omega arith

collecting-IsValid : IsValid 64 collecting
unfolding default_context
collecting-IsValid = omega arith

size-two_args : size_arguments two_args ≡ 7
unfolding size_arguments size_argument
size-two_args = refl

remote_call_example :
    (ctx' : Context TestPub TestSub) × (args' : List Arg) × (client_function test_rmc test_sys
        collecting hi two_args
        (0 ∷ 0 ∷ [])
      ≡ done (0, ctx'))
    × (process_packet serving with_hi (pending ctx') ≡ note args' with_hi)
    × (map view args' ≡ map view two_args)
unfolding default_context
remote_call_example =
    remote_call test_rmc test_sys collecting node_7 hi two_args (0 ∷ 0 ∷ []) serving 64 9 fresh
      with_hi note collecting-IsValid refl refl refl (omega arith) (omega arith) (λ e. cc)
      (omega arith) (omega arith) (omega (arith, size-two_args)) fresh-IsValid register_hi (λ e. cc)
      (λ inv c e. refl)

-- A client that waits for the callback 6 under the reference 5.
abbrev waiting : Context TestPub TestSub
waiting = record fresh {
  local_callback = set (replicate 128 no_callback) 0 (record { callback = 6; callback_ref = 5 });
  callback_ind = 1;
}

activate_5 : activate_callback fresh 5 6 ≡ done (5, waiting)
unfolding activate_callback fill_slot free_slot default_context
activate_5 = refl

process_packet-replies_example :
    process_packet counting waiting (frames 7 (reply 5 (1 ∷ []) ∷ reply 5 (2 ∷ 3 ∷ []) ∷ [])) ≡ (
      counting (first_reply counting 7 5 6 (1 ∷ []) (2 ∷ 3 ∷ [])) (find_callback_by_ref waiting 5).1
      >>= λ c. done (find_callback_by_ref c 5).1)
unfolding default_context
process_packet-replies_example =
    process_packet-replies counting 64 fresh 5 6 7 (1 ∷ []) (2 ∷ 3 ∷ []) fresh-IsValid (λ e. cc)
      (λ e. cc) (unfold find_ref in refl) activate_5 (omega arith) (omega arith) (omega arith)
      (omega arith) (λ inv c c' e. (ground arith, ground arith))

callback_call_example :
    (ctx' : Context TestPub TestSub) × (args' : List Arg) × (callback_function test_rmc test_sys
        collecting 5 two_args
        (0 ∷ 0 ∷ [])
      ≡ done (0, ctx'))
    × (process_packet serving waiting (pending ctx')
        ≡ note args' (find_callback_by_ref waiting 5).1)
    × (map view args' ≡ map view two_args)
unfolding default_context
callback_call_example =
    callback_call test_rmc test_sys collecting node_7 5 two_args (0 ∷ 0 ∷ []) serving 64 6 5 fresh
      waiting note collecting-IsValid refl refl refl (omega arith) (omega arith) (λ e. cc)
      (omega arith) (omega arith) (omega (arith, size-two_args)) fresh-IsValid (λ e. cc)
      (unfold find_ref in refl) activate_5 (λ inv c e. refl)

-- A dynamic argument of two bytes and one of a byte, with a byte behind them.
abbrev arrived : List ℕ
arrived = 2 ∷ 0 ∷ 5 ∷ 6 ∷ 9 ∷ 1 ∷ []

abbrev read_back : List Arg
read_back = dynamic 2 (5 ∷ 6 ∷ 9 ∷ 1 ∷ []) ∷ fixed 1 (9 ∷ []) ∷ []

deserialize-arrived : deserialize (map param two_args) arrived ≡ done read_back
unfolding deserialize deserialize_argument read_bytes param le_value
deserialize-arrived = refl
