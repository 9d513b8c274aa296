-- ===== src/Examples/Chat/Line.antt =====
-- A line that is typed into one chat.c and shown by another.
use dstc.Base.{
  ℕ, zero, suc, ◌+◌, ◌-◌, ◌^◌, ◌≤◌, ◌<◌, ◌≡◌, ◌≢◌, refl, sym, ap, ◌∙◌, arith, false, List, [], ◌∷◌,
  ◌++◌, some, map, fault, if_false, set, length, length-append, take, append_assoc, Outcome, done,
}
use dstc.Rmc.{Rmc, System}
use dstc.Wire.{c_string}
use dstc.Wire.Codec.{NoNul, c_string-append}
use dstc.Context.{Context}
use dstc.Context.Valid.{IsValid}
use dstc.Symtab.Local.{register_server_function}
use dstc.Dispatch.{Invocation, process_packet}
use dstc.Epoll.{Os, Io}
use dstc.Args.{
  Arg, dynamic, callback, fixed, param, client_function, server_function, size_argument,
  size_arguments,
}
use dstc.Args.RoundTrip.{view}
use dstc.Rpc.{remote_call-sent}
use dstc.Examples.Chat.{
  chat_message_name, chat_parameters, chat_args, Console, trim, chat_message, take_line, read_line,
  handle_keyboard,
}

take-take : (n : ℕ) (xs : List ℕ) → take n (take n xs) ≡ take n xs
take-take zero xs = refl
take-take (suc n) [] = refl
take-take (suc n) (x ∷ xs) = ap (◌∷◌ x) (take-take n xs)

-- What is shown depends on the bytes that the arguments name.
chat_message-view : (args : List Arg) → chat_message (map view args) ≡ chat_message args
unfolding chat_message view
chat_message-view [] = refl
chat_message-view (dynamic n memory ∷ args) = refl
chat_message-view (callback ref ∷ args) = refl
chat_message-view (fixed n a ∷ []) = refl
chat_message-view (fixed n a ∷ dynamic k b ∷ args) = refl
chat_message-view (fixed n a ∷ callback ref ∷ args) = refl
chat_message-view (fixed n a ∷ fixed k b ∷ []) = rw (take-take n a, take-take k b)
chat_message-view (fixed n a ∷ fixed k b ∷ c ∷ args) = refl

NoNul-snoc : (line : List ℕ) (b : ℕ) → NoNul line → b ≢ 0 → NoNul (line ++ b ∷ [])
NoNul-snoc [] b clean h = (h, tt)
NoNul-snoc (c ∷ line) b clean h = (clean.0, NoNul-snoc line b clean.1 h)

set-append :
    (line : List ℕ) (b v : ℕ) (rest : List ℕ)
    → set (line ++ b ∷ rest) (length line) v ≡ line ++ v ∷ rest
set-append [] b v rest = refl
set-append (c ∷ line) b v rest = ap (◌∷◌ c) (set-append line b v rest)

c_string-take :
    (line rest : List ℕ) (n : ℕ)
    → NoNul line
    → length line < n
    → c_string (take n (line ++ 0 ∷ rest)) ≡ some line
unfolding c_string
c_string-take line rest zero clean h = absurd (omega arith)
c_string-take [] rest (suc n) clean h = refl
c_string-take (b ∷ line) rest (suc n) clean h =
    ground (arith, c_string-take line rest n clean.1 (omega arith))

-- The newline becomes the terminator.
trim-line :
    (line rest : List ℕ) → NoNul line → trim (line ++ 10 ∷ 0 ∷ rest) ≡ done (line ++ 0 ∷ 0 ∷ rest)
unfolding trim
trim-line line rest clean =
    let typed = line ++ 10 ∷ [] in
    let found : c_string (line ++ 10 ∷ 0 ∷ rest) ≡ some typed =
      ap c_string (sym (append_assoc line (10 ∷ []) (0 ∷ rest)))
      ∙ c_string-append typed rest (NoNul-snoc line 10 clean (λ e. cc)) in
    let size : length typed - 1 ≡ length line = omega (arith, length-append line (10 ∷ [])) in
    rw found (
      if_false fault (done (set (line ++ 10 ∷ 0 ∷ rest) (length typed - 1) 0))
        (ground (arith, length-append line (10 ∷ [])))
      ∙ ap (λ (n : ℕ). done (set (line ++ 10 ∷ 0 ∷ rest) n 0)) size
      ∙ ap done (set-append line 10 0 (0 ∷ rest)))

-- What was typed is shown, under the name of the user.
chat_message-line :
    (username name line rest : List ℕ)
    → c_string (take 128 username) ≡ some name
    → NoNul line
    → length line < 512
    → chat_message (chat_args username (line ++ 0 ∷ 0 ∷ rest)) ≡ done (name, line)
unfolding chat_message
chat_message-line username name line rest user clean short =
    rw (user, c_string-take line (0 ∷ rest) 512 clean short)

size_arguments-chat_args : (username buf : List ℕ) → size_arguments (chat_args username buf) ≡ 640
unfolding size_arguments size_argument
size_arguments-chat_args username buf = refl

param-chat_args : (username buf : List ℕ) → map param (chat_args username buf) ≡ chat_parameters
unfolding param
param-chat_args username buf = refl

module _ {Pub Sub W : Type 0} (rmc : Rmc Pub Sub) (sys : System) (io : Io (Context Pub Sub))
    (os : Os W) (console : Console W) where
  read_line-typed :
      (w w' : W) (line rest stale : List ℕ)
      → console.fgets 511 stale w ≡ (some (line ++ 10 ∷ 0 ∷ rest), w')
      → NoNul line
      → read_line rmc sys io os console 511 stale w ≡ done (line ++ 0 ∷ 0 ∷ rest, w')
  unfolding read_line take_line
  read_line-typed w w' line rest stale typed clean =
      ap (take_line rmc sys io os console) typed ∙ rw (trim-line line rest clean)

  handle_keyboard_lem :
      (username stale buf : List ℕ) (ctx : Context Pub Sub) (w w' : W) (res : ℕ)
      {ctx' : Context Pub Sub}
      → read_line rmc sys io os console 511 stale w ≡ done (buf, w')
      → client_function rmc sys ctx chat_message_name (chat_args username buf) [] ≡ done (res, ctx')
      → handle_keyboard rmc sys io os console username stale ctx w ≡ done (ctx', w')
  unfolding handle_keyboard
  handle_keyboard_lem username stale buf ctx w w' res read made = rw (read, made)

  -- A line that is typed into chat.c is shown by another chat.c. Where fgets gives a line that ends
  -- in a newline, without a terminator inside, in the array of 512 bytes, and the name of the user
  -- is a string in its 128 bytes; on a valid node that is set up, does not collect calls and holds
  -- none, with RMC_MAX_PAYLOAD from 659 to below 2^16 and a node id below 2^32, and whose rmc is
  -- not suspended and takes every packet: handle_keyboard returns, rmc was handed one packet and
  -- the buffer is empty; and where a valid node registered a function for chat_message that
  -- DSTC_SERVER made, the processing of this packet calls the function behind it once, and
  -- chat_message shows the name and the line without the newline.
  pub handle_keyboard-shown :
      {Pub' Sub' : Type 0} (ctx : Context Pub Sub) (pub_ctx : Pub) (w w' : W)
      (username name line rest stale : List ℕ)
      (app : Invocation → Context Pub' Sub' → Outcome (Context Pub' Sub')) (max_payload f : ℕ)
      (before receiver : Context Pub' Sub')
      (body : List Arg → Context Pub' Sub' → Outcome (Context Pub' Sub'))
      → console.fgets 511 stale w ≡ (some (line ++ 10 ∷ 0 ∷ rest), w')
      → NoNul line
      → length line + 2 + length rest ≡ 512
      → 128 ≤ length username
      → c_string (take 128 username) ≡ some name
      → IsValid rmc.max_payload ctx
      → ctx.pub_ctx ≡ some pub_ctx
      → ctx.pub_is_buffering ≡ false
      → ctx.pub_buffer_ind ≡ 0
      → rmc.pub_traffic_suspended pub_ctx ≡ 0
      → ((bytes : List ℕ) → (rmc.pub_queue_packet bytes pub_ctx).0 ≡ 0)
      → rmc.max_payload < 2 ^ 16
      → rmc.pub_node_id pub_ctx < 2 ^ 32
      → 659 ≤ rmc.max_payload
      → IsValid max_payload before
      → register_server_function before chat_message_name f ≡ done receiver
      → f ≢ 0
      → ((inv : Invocation) (c : Context Pub' Sub')
          → inv.func ≡ f
          → app inv c ≡ server_function chat_parameters body inv.payload c)
      → (ctx' : Context Pub Sub) × (packet : List ℕ) × (args' : List Arg) × (handle_keyboard rmc sys
            io os console username stale ctx w
          ≡ done (ctx', w'))
        × (ctx'.pub_ctx ≡ some (rmc.pub_queue_packet packet pub_ctx).1)
        × (ctx'.pub_buffer_ind ≡ 0)
        × (process_packet app receiver packet ≡ body args' receiver)
        × (chat_message args' ≡ done (name, line))
  handle_keyboard-shown {Pub' = Pub'} {Sub' = Sub'} ctx pub_ctx w w' username name line rest stale
        app max_payload f before receiver body typed clean whole wide user v up off empty free takes
        small word room v' reg live runs =
      let buf = line ++ 0 ∷ 0 ∷ rest in
      let args = chat_args username buf in
      let size : length buf ≡ 512 = omega (arith, length-append line (0 ∷ 0 ∷ rest)) in
      let runs' : (inv : Invocation) (c : Context Pub' Sub')
          → inv.func ≡ f
          → app inv c ≡ server_function (map param args) body inv.payload c =
        rw (param-chat_args username buf) runs in
      let (ctx', packet, args', made, gone, clear, called, seen) =
        remote_call-sent rmc sys ctx pub_ctx chat_message_name args [] app max_payload f before
          receiver body v up off empty free takes small word (λ e. cc) (omega arith)
          (wide, (omega (arith, size), tt)) (omega (arith, size_arguments-chat_args username buf))
          v' reg live runs' in
      (
        ctx',
        packet,
        args',
        handle_keyboard_lem username stale buf ctx w w' 0
            (read_line-typed w w' line rest stale typed clean) made,
        gone,
        clear,
        called,
        sym (chat_message-view args')
            ∙ ap chat_message seen
            ∙ chat_message-view args
            ∙ chat_message-line username name line rest user clean (omega arith),
      )
