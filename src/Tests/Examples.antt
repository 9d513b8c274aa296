-- ===== src/Tests/Examples.antt =====
-- Each theorem of the library, at a concrete input that meets its hypotheses.
use dstc.Base.{
  ℕ, ◌+◌, ◌*◌, set, replicate, ◌≡◌, ◌≢◌, refl, ◌&&◌, ◌||◌, not, List, [], ◌∷◌, ◌++◌, arith, length,
  take, map, str_eq, ◌==◌, done, fault, out_of_fuel, ◌>>=◌,
}
use dstc.Wire.{header_bytes, le_bytes, c_string}
use dstc.Context.{Context, default_context, lock_context, unlock_context, copy_name}
use dstc.Context.Valid.{IsValid}
use dstc.Symtab.Remote.{
  is_registered, register_remote_function, add_remote, unregister_remote_node,
  subscriber_control_message_cb, subscriber_disconnect_cb,
}
use dstc.Symtab.Remote.Laws.{
  supports, supports-register_remote_function, supports-unregister_remote_node,
}
use dstc.Symtab.Local.{control_message}
use dstc.Symtab.Local.Announce.{
  subscriber_control_message_cb-control_message, supports-subscriber_disconnect_cb,
}
use dstc.Callbacks.{activate_callback, fill_slot, free_slot, find_callback_by_ref, find_ref}
use dstc.Callbacks.Laws.{active, active-activate_callback, find_callback_by_ref-activate_callback}
use dstc.Queue.Frame.{Call, func, reply, frame, payload_bytes}
use dstc.Dispatch.{process_packet, process_function_call}
use dstc.Dispatch.Deliver.{IsSendable, process_function_call-unterminated}
use dstc.Dispatch.Incoming.{
  frames, AllSendable, deliver_all, process_packet-frames, process_packet-ne-out_of_fuel,
}
use dstc.Args.{
  Arg, dynamic, callback, fixed, param, serialize, deserialize, fill_buffer, size_argument,
  size_arguments,
}
use dstc.Args.RoundTrip.{view, wires, dynamics, deserialize-serialize, fill_buffer_lem}
use dstc.Tests.Network.{TestPub, TestSub, test_rmc, fresh, collecting, hi, counting}

fresh-IsValid : IsValid 64 fresh
unfolding default_context
fresh-IsValid = omega arith

fresh_collecting-IsValid : IsValid 64 collecting
unfolding default_context
fresh_collecting-IsValid = omega arith

abbrev two_calls : List Call
two_calls = func hi (1 ∷ 2 ∷ []) ∷ reply 5 (3 ∷ []) ∷ []

hi_call : IsSendable (func hi (1 ∷ 2 ∷ []))
hi_call = ((λ e. cc), omega arith, omega arith)

two_calls-AllSendable : AllSendable two_calls
two_calls-AllSendable = (hi_call, (omega arith, tt))

length-two_calls : length (frames 7 two_calls) ≡ 27
unfolding frames frame payload_bytes header_bytes le_bytes
length-two_calls = refl

process_packet-frames_example :
    process_packet counting fresh (frames 7 two_calls) ≡ deliver_all counting 7 fresh two_calls
process_packet-frames_example =
    process_packet-frames counting fresh 7 two_calls (omega arith) two_calls-AllSendable

length-hi : length (frame 7 (func hi (1 ∷ 2 ∷ []))) ≡ 11
unfolding frame payload_bytes header_bytes le_bytes
length-hi = refl

-- Sixty bytes are pending, and eleven more do not fit.
abbrev nearly_full : Context TestPub TestSub
nearly_full = record fresh { pub_buffer_ind = 60 }

nearly_full-IsValid : IsValid 64 nearly_full
unfolding default_context
nearly_full-IsValid = omega arith

process_packet-ne-out_of_fuel_example : process_packet counting fresh (7 ∷ 0 ∷ 9 ∷ []) ≢ out_of_fuel
process_packet-ne-out_of_fuel_example =
    process_packet-ne-out_of_fuel counting (λ inv ctx e. cc) fresh (7 ∷ 0 ∷ 9 ∷ []) (omega arith)

abbrev short_packet : List ℕ
short_packet = 7 ∷ 0 ∷ 9 ∷ []

-- Two bytes of a name, and the packet ends.
process_function_call-unterminated_example :
    process_function_call counting fresh (header_bytes 7 2 ++ hi) ≡ fault
unfolding c_string
process_function_call-unterminated_example =
    process_function_call-unterminated counting fresh 7 hi (omega arith) (omega arith) refl

abbrev with_callback : Context TestPub TestSub
with_callback = record fresh {
  local_callback = set fresh.local_callback 0 (record { callback = 40; callback_ref = 5 });
  callback_ind = 1;
}

with_callback-IsValid : IsValid 64 with_callback
unfolding default_context
with_callback-IsValid = omega arith

find_callback_by_ref-activate_callback_example :
    ((find_callback_by_ref with_callback 5).0 ≡ 40)
    × ((find_callback_by_ref (find_callback_by_ref with_callback 5).1 5).0 ≡ 0)
unfolding default_context activate_callback fill_slot free_slot find_ref
find_callback_by_ref-activate_callback_example =
    find_callback_by_ref-activate_callback 64 fresh 5 40 {k = 5} {ctx' = with_callback}
      fresh-IsValid (omega arith) (omega arith) refl refl

active-activate_callback_example :
    (◌≡◌ {A = ℕ} 5 5)
    × (active with_callback 5 40 ≡ 1 + active fresh 5 40)
    × IsValid 64 with_callback
unfolding default_context activate_callback fill_slot free_slot
active-activate_callback_example =
    active-activate_callback 64 fresh fresh-IsValid 5 40 5 40 {k = 5} {ctx' = with_callback}
      (omega arith) (omega arith) refl

abbrev with_remote : Context TestPub TestSub
with_remote = record fresh {
  remote_node = set fresh.remote_node 0 (record { node_id = 9; func_name = hi });
  remote_node_ind = 1;
}

with_remote-IsValid : IsValid 64 with_remote
unfolding default_context
with_remote-IsValid = omega arith

supports-register_remote_function_example :
    supports with_remote 9 hi ≡ (9 == 9 && str_eq hi hi || supports fresh 9 hi)
unfolding default_context register_remote_function add_remote copy_name is_registered
supports-register_remote_function_example =
    supports-register_remote_function 64 fresh 9 hi {ctx' = with_remote} 9 hi fresh-IsValid refl

supports-unregister_remote_node_example :
    supports (unregister_remote_node with_remote 9) 9 hi
    ≡ (not (9 == 9) && supports with_remote 9 hi)
supports-unregister_remote_node_example =
    supports-unregister_remote_node 64 with_remote 9 9 hi with_remote-IsValid (omega arith)

abbrev with_server : Context TestPub TestSub
with_server = record fresh {
  server_func = set fresh.server_func 0 (record { func_name = hi; server_func = 90 });
  server_func_ind = 1;
}

subscriber_control_message_cb-control_message_example :
    (control_message 9 hi >>= subscriber_control_message_cb fresh)
    ≡ (register_remote_function (lock_context fresh) 9 hi >>= λ ctx. done (unlock_context ctx))
subscriber_control_message_cb-control_message_example =
    subscriber_control_message_cb-control_message fresh 9 hi (omega arith) (omega arith)
      (omega arith)

supports-subscriber_disconnect_cb_example :
    (ctx' : Context TestPub TestSub) × (subscriber_disconnect_cb test_rmc with_remote ≡ done ctx')
    × (supports ctx' 9 hi ≡ (not (9 == 7) && supports with_remote 9 hi))
supports-subscriber_disconnect_cb_example =
    supports-subscriber_disconnect_cb test_rmc with_remote 9 hi with_remote-IsValid refl
      (omega arith)

abbrev long_name : List ℕ
long_name = replicate 255 b'x'

abbrev two_args : List Arg
two_args = dynamic 3 (1 ∷ 2 ∷ 3 ∷ []) ∷ fixed 2 (8 ∷ 9 ∷ []) ∷ callback 77 ∷ []

deserialize-serialize_example :
    (bytes : List ℕ) × (args' : List Arg) × (serialize two_args ≡ done bytes)
    × (deserialize (map param two_args) (bytes ++ 6 ∷ []) ≡ done args')
    × (map view args' ≡ map view two_args)
deserialize-serialize_example = deserialize-serialize two_args (6 ∷ []) (omega arith)

fill_buffer_lem_example :
    fill_buffer two_args (5 ∷ 5 ∷ [])
    ≡ done (wires two_args ++ take (2 * dynamics two_args) (5 ∷ 5 ∷ []))
unfolding size_arguments size_argument
fill_buffer_lem_example = fill_buffer_lem two_args (5 ∷ 5 ∷ []) (omega arith) (omega arith)
