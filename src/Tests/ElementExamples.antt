-- ===== src/Tests/ElementExamples.antt =====
-- The theorems on examples/callback_dyndata at concrete inputs: a server that has two elements.
use dstc.Base.{
  ℕ, ◌+◌, ◌≡◌, ◌≤◌, ◌<◌, ◌⊎◌, refl, arith, List, [], ◌∷◌, Option, none, some, Outcome, done, exit,
  fault, replicate, set,
}
use mathlib.Core.List.{reverse}
use dstc.Rmc.{Rmc}
use dstc.Context.{
  Context, default_context, copy_name, lock_context, unlock_context, no_server, no_callback,
}
use dstc.Context.Valid.{IsValid}
use dstc.Symtab.Local.{register_server_function, add_server}
use dstc.Callbacks.{find_ref, free_slot, fill_slot, activate_callback, find_callback_by_ref}
use dstc.Dispatch.{Invocation, process_packet}
use dstc.Args.{callback_param, server_function}
use dstc.Rpc.{IsReady}
use dstc.Examples.Statics.{Statics}
use dstc.Examples.Elements.{
  Elements, max_elems, get_name, add_elements, callback_parameters, get_all_elements_callback,
  get_all_elements, ask_elements,
}
use dstc.Examples.Elements.Add.{Stores, add_elements_lem}
use dstc.Examples.Elements.Exchange.{get_all_elements-printed}
use dstc.Tests.Network.{TestPub, TestSub, test_rmc, test_sys, node_7, no_packets}

abbrev first_elem : List ℕ
first_elem = replicate 68 1

abbrev second_elem : List ℕ
second_elem = replicate 68 2

abbrev no_elements : Elements
no_elements = record { elems = replicate 100 []; elem_index = 0 }

add_elements_lem_example :
    ((0 + 2 ≤ max_elems)
      × (s' : Elements) × (add_elements no_elements (first_elem ∷ second_elem ∷ []) ≡ done s')
      × Stores s' (first_elem ∷ second_elem ∷ []))
    ⊎ ((max_elems < 0 + 2) × (add_elements no_elements (first_elem ∷ second_elem ∷ []) ≡ fault))
add_elements_lem_example =
    add_elements_lem no_elements [] (first_elem ∷ second_elem ∷ [])
      (replicate 100 [], refl, refl, refl)

abbrev two_elements : Elements
two_elements = record { elems = first_elem ∷ second_elem ∷ replicate 98 []; elem_index = 2 }

-- A client, and a server whose subscriber stands for its array.
abbrev pub client_rmc : Rmc TestPub TestSub
client_rmc = record test_rmc { max_payload = 300 }

abbrev pub server_rmc : {S : Type 0} → Rmc TestPub S
server_rmc = record {
  max_payload = 300;
  pub_init_context = λ c. none;
  sub_init_context = λ c. none;
  pub_throttling = λ a b p. p;
  pub_set_multicast_ttl = λ n p. p;
  pub_activate_context = λ p. p;
  sub_activate_context = λ s. s;
  pub_set_announce_interval = λ n p. p;
  pub_node_id = λ p. p.node;
  pub_get_socket_count = λ p. 2;
  sub_get_socket_count = λ s. 1;
  pub_traffic_suspended = λ p. p.suspended;
  pub_queue_packet = λ bytes p. (0, record p { packets = bytes ∷ p.packets });
  sub_write_control_message_by_node_id = λ n bytes s. s;
  sub_get_next_dispatch_ready = λ s. none;
  sub_packet_dispatched_keep_payload = λ s. s;
  pub_timeout_get_next = λ p. none;
  sub_timeout_get_next = λ s. none;
}

abbrev pub client : Context TestPub TestSub
client = record (default_context 300) { pub_ctx = some node_7; sub_ctx = some no_packets }

abbrev asking : Context TestPub TestSub
asking = record client {
  local_callback = set (replicate 128 no_callback) 0 (record { callback = 6; callback_ref = 5 });
  callback_ind = 1;
}

abbrev server : Context TestPub Elements
server = record (default_context 300) { pub_ctx = some node_7; sub_ctx = some two_elements }

abbrev serving : Context TestPub Elements
serving = record server {
  server_func = set (replicate 128 no_server) 0 (record { func_name = get_name; server_func = 9 });
  server_func_ind = 1;
}

abbrev kept : Option Elements → Elements
kept none = no_elements
kept (some s) = s

abbrev statics : Statics (Context TestPub Elements) Elements
statics = record {
  read = λ c. kept c.sub_ctx;
  write = λ s c. record c { sub_ctx = some s };
  read-write = λ s c. refl;
}

-- It prints the elements, and ends.
abbrev print : List (List ℕ) → Context TestPub TestSub → Outcome (Context TestPub TestSub)
print elems c = exit 0

abbrev answer_app : Invocation → Context TestPub TestSub → Outcome (Context TestPub TestSub)
answer_app inv c =
    server_function callback_parameters (get_all_elements_callback print) inv.payload c

abbrev question_app : Invocation → Context TestPub Elements → Outcome (Context TestPub Elements)
question_app inv c =
    server_function (callback_param ∷ [])
      (get_all_elements server_rmc test_sys statics (0 ∷ 0 ∷ [])) inv.payload c

register_get : register_server_function server get_name 9 ≡ done serving
unfolding register_server_function add_server copy_name lock_context unlock_context default_context
register_get = refl

activate_print : activate_callback client 5 6 ≡ done (5, asking)
unfolding activate_callback fill_slot free_slot default_context
activate_print = refl

pub client-IsValid : IsValid 300 client
unfolding default_context
client-IsValid = omega arith

server-IsValid : IsValid 300 server
unfolding default_context
server-IsValid = omega arith

asking-IsReady : IsReady client_rmc asking node_7
unfolding default_context
asking-IsReady = record {
  valid = omega arith;
  up = refl;
  off = refl;
  empty = refl;
  free = refl;
  takes = λ bytes. refl;
  small = omega arith;
  word = omega arith;
}

serving-IsReady : IsReady server_rmc serving node_7
unfolding default_context
serving-IsReady = record {
  valid = omega arith;
  up = refl;
  off = refl;
  empty = refl;
  free = refl;
  takes = λ bytes. refl;
  small = omega arith;
  word = omega arith;
}

get_all_elements-printed_example :
    (asked : Context TestPub TestSub) × (served : Context TestPub Elements) × (question
      answer : List ℕ)
    × (ask_elements client_rmc test_sys client 5 6 ≡ done (0, asked))
    × (asked.pub_ctx ≡ some (client_rmc.pub_queue_packet question node_7).1)
    × (process_packet question_app serving question ≡ done served)
    × (served.pub_ctx ≡ some ((server_rmc {S = Elements}).pub_queue_packet answer node_7).1)
    × (process_packet answer_app asked answer
        ≡ print (reverse (first_elem ∷ second_elem ∷ [])) (find_callback_by_ref asked 5).1)
get_all_elements-printed_example =
    get_all_elements-printed client_rmc test_sys server_rmc test_sys client asking node_7 5 6 print
      answer_app server serving node_7 9 (first_elem ∷ second_elem ∷ []) (0 ∷ 0 ∷ []) statics
      question_app client-IsValid (λ e. cc) (omega arith) (λ e. cc)
      (unfold find_ref default_context in refl) activate_print asking-IsReady (omega arith)
      (λ inv c e. refl) server-IsValid register_get (λ e. cc) serving-IsReady
      (replicate 98 [], refl, refl, refl) (refl, (refl, tt)) (omega arith) (λ inv c e. refl)
