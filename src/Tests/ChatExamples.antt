-- ===== src/Tests/ChatExamples.antt =====
-- The theorem on chat.c, at a concrete input: "hi" is typed by the user "hi".
use dstc.Base.{
  ℕ, ◌≡◌, refl, arith, List, [], ◌∷◌, ◌++◌, Outcome, some, done, set, replicate, length,
}
use dstc.Rmc.{Rmc}
use dstc.Wire.{c_string}
use dstc.Context.{Context, default_context, copy_name, lock_context, unlock_context, no_server}
use dstc.Context.Valid.{IsValid, default_context-IsValid}
use dstc.Symtab.Local.{register_server_function, add_server}
use dstc.Dispatch.{Invocation, process_packet}
use dstc.Epoll.{Wait}
use dstc.Args.{Arg, server_function}
use dstc.Examples.Chat.{Console, chat_message_name, chat_parameters, chat_message, handle_keyboard}
use dstc.Examples.Chat.Line.{handle_keyboard-shown}
use dstc.Tests.Network.{TestPub, TestSub, test_rmc, test_sys, node_7, no_packets, hi}
use dstc.Tests.World.{test_os, test_io}

-- A network with packets that a chat message fits.
abbrev wide_rmc : Rmc TestPub TestSub
wide_rmc = record test_rmc { max_payload = 1000 }

abbrev chatting : Context TestPub TestSub
chatting = record (default_context 1000) {
  epoll_fd = some 3;
  pub_ctx = some node_7;
  sub_ctx = some no_packets;
}

chatting-IsValid : IsValid 1000 chatting
unfolding default_context
chatting-IsValid =
    let v = default_context-IsValid {Pub = TestPub} {Sub = TestSub} 1000 in
    record {
      remote_size = v.remote_size;
      remote_in = v.remote_in;
      callback_size = v.callback_size;
      callback_in = v.callback_in;
      client_size = v.client_size;
      client_in = v.client_in;
      server_size = v.server_size;
      server_in = v.server_in;
      buffer_size = v.buffer_size;
      buffer_in = v.buffer_in;
    }

abbrev hi_line : List ℕ
hi_line = hi ++ 10 ∷ 0 ∷ replicate 508 7

abbrev typing : Console (List Wait)
typing = record { fgets = λ size s w. (some hi_line, w); epoll_create1 = λ w. (some 3, w) }

abbrev user : List ℕ
user = hi ++ replicate 126 0

abbrev shows : List Arg → Context TestPub TestSub → Outcome (Context TestPub TestSub)
shows args ctx = done (record ctx { client_callback_count = length args })

abbrev showing : Invocation → Context TestPub TestSub → Outcome (Context TestPub TestSub)
showing inv ctx = server_function chat_parameters shows inv.payload ctx

abbrev with_chat : Context TestPub TestSub
with_chat = record chatting {
  server_func =
      set (replicate 128 no_server) 0 (record { func_name = chat_message_name; server_func = 9 });
  server_func_ind = 1;
}

register_chat : register_server_function chatting chat_message_name 9 ≡ done with_chat
unfolding register_server_function add_server copy_name lock_context unlock_context default_context
register_chat = refl

handle_keyboard-shown_example :
    (ctx' : Context TestPub TestSub) × (packet : List ℕ) × (args' : List Arg) × (handle_keyboard
        wide_rmc test_sys test_io test_os typing user [] chatting []
      ≡ done (ctx', []))
    × (ctx'.pub_ctx ≡ some (wide_rmc.pub_queue_packet packet node_7).1)
    × (ctx'.pub_buffer_ind ≡ 0)
    × (process_packet showing with_chat packet ≡ shows args' with_chat)
    × (chat_message args' ≡ done (hi, hi))
unfolding default_context
handle_keyboard-shown_example =
    handle_keyboard-shown wide_rmc test_sys test_io test_os typing chatting node_7 [] [] user hi hi
      (replicate 508 7) [] showing 1000 9 chatting with_chat shows refl (omega arith) (omega arith)
      (omega arith) (unfold c_string in refl) chatting-IsValid refl refl refl refl (λ bytes. refl)
      (omega arith) (omega arith) (omega arith) chatting-IsValid register_chat (λ e. cc)
      (λ inv c e. refl)
