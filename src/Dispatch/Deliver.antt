-- ===== src/Dispatch/Deliver.antt =====
-- dstc_process_function_call of dstc.c on the frame of one call.
use dstc.Base.{
  ℕ, ◌+◌, ◌-◌, ◌^◌, ◌≤◌, ◌<◌, ◌≡◌, ◌≢◌, false, refl, sym, List, [], ◌∷◌, ◌++◌, none, some, arith,
  length, drop, length-append, append_assoc, drop-skip, drop-append, take-append, le→ltb, ◌==◌,
  Outcome, done, fault, ◌>>=◌, Bool-cases, inl, inr,
}
use dstc.Wire.{u16, u32, le_bytes, header_bytes, c_string}
use dstc.Wire.Codec.{
  length-header_bytes, read_header-header_bytes, NoNul, c_string-append, le_value-le_bytes,
  length-le_bytes,
}
use dstc.Context.{Context}
use dstc.Symtab.Local.{find_server_function}
use dstc.Callbacks.{find_callback_by_ref}
use dstc.Queue.Laws.{IsCall}
use dstc.Queue.Frame.{
  Call, func, reply, frame, payload_bytes, length-payload_bytes-func, length-payload_bytes-reply,
}
use dstc.Dispatch.{
  Invocation, len_after, read_ref, invoke, process_named, process_callback, process_payload,
  process_function_call,
}

-- A call as a sender can make it: its strings have no terminator inside, its reference fits a
-- `uint64_t` and its payload fits the header's `uint16_t`.
abbrev pub IsSendable : Call → Type 0
IsSendable (func name arg) = (name ≢ []) × NoNul name × (length name + 1 + length arg < 2 ^ 16)
IsSendable (reply ref arg) = (ref ≢ 0) × (ref < 2 ^ 64) × (9 + length arg < 2 ^ 16)

pub IsSendable-IsCall : (call : Call) → IsSendable call → IsCall call
IsSendable-IsCall (func name arg) h = h.0
IsSendable-IsCall (reply ref arg) h = h.0

module _ {Pub Sub : Type 0} (app : Invocation → Context Pub Sub → Outcome (Context Pub Sub)) where
  -- What a call means at the receiver, with the bytes of the packet that follow it.
  unfoldable pub deliver : ℕ → List ℕ → Context Pub Sub → Call → Outcome (Context Pub Sub)
  deliver node_id rest ctx (func name arg) =
      invoke app
        (record {
          func = find_server_function ctx name;
          callback_ref = 0;
          node_id = node_id;
          name = name;
          payload = arg ++ rest;
          payload_len = length arg;
        })
        ctx
  deliver node_id rest ctx (reply ref arg) =
      let (found, ctx') = find_callback_by_ref ctx ref in
      invoke app
        (record {
          func = found;
          callback_ref = ref;
          node_id = node_id;
          name = [];
          payload = arg ++ rest;
          payload_len = length arg;
        })
        ctx'

  -- A payload that starts with a name is a call of the server function of that name.
  pub process_named_lem :
      (ctx : Context Pub Sub) (node_id len : ℕ) (name args : List ℕ)
      → NoNul name
      → length name < 2 ^ 32
      → process_named app ctx
          (record { node_id = node_id; payload_len = len; payload = name ++ 0 ∷ args })
        ≡ invoke app
            (record {
              func = find_server_function ctx name;
              callback_ref = 0;
              node_id = node_id;
              name = name;
              payload = args;
              payload_len = len_after len (length name);
            })
            ctx
  unfolding process_named
  process_named_lem ctx node_id len name args clean short =
      let behind : drop (length name + 1) (name ++ 0 ∷ args) ≡ args =
        drop-skip name (0 ∷ args) 1 (length name + 1) refl in
      rw (c_string-append name args clean, behind)

  pub process_callback_lem :
      (ctx : Context Pub Sub) (node_id len ref : ℕ) (args : List ℕ)
      → ref < 2 ^ 64
      → process_callback app ctx
          (record { node_id = node_id; payload_len = len; payload = 0 ∷ (le_bytes 8 ref ++ args) })
        ≡ (let (found, ctx') = find_callback_by_ref ctx ref in
            invoke app
              (record {
                func = found;
                callback_ref = ref;
                node_id = node_id;
                name = [];
                payload = args;
                payload_len = len_after len 8;
              })
              ctx')
  unfolding process_callback read_ref
  process_callback_lem ctx node_id len ref args word =
      let bytes = le_bytes 8 ref in
      let size : length bytes ≡ 8 = length-le_bytes 8 ref in
      rw (
        le→ltb (length (bytes ++ args)) 8 (omega (arith, length-append bytes args)),
        take-append bytes args 8 (sym size),
        drop-append bytes args 8 (sym size),
        le_value-le_bytes 8 ref word,
      )

  process_payload-deliver :
      (ctx : Context Pub Sub) (node_id : ℕ) (call : Call) (rest : List ℕ)
      → IsSendable call
      → process_payload app (payload_bytes call ++ rest) ctx (record {
        node_id = node_id;
        payload_len = length (payload_bytes call);
        payload = payload_bytes call ++ rest;
      })
        ≡ deliver node_id rest ctx call
  unfolding process_payload deliver
  process_payload-deliver ctx node_id (func [] arg) rest (named, clean, short) = absurd (named refl)
  process_payload-deliver ctx node_id (func (c ∷ name) arg) rest (named, clean, short) =
      let text : payload_bytes (func (c ∷ name) arg) ++ rest ≡ (c ∷ name) ++ 0 ∷ (arg ++ rest) =
        unfold payload_bytes in simp append_assoc in
      let size = length-payload_bytes-func (c ∷ name) arg in
      let len : len_after (length (payload_bytes (func (c ∷ name) arg))) (length (c ∷ name))
          ≡ length arg =
        omega (arith, size) in
      let first : (c == 0) ≡ false = ground arith in
      rw (
        text,
        first,
        process_named_lem ctx node_id (length (payload_bytes (func (c ∷ name) arg))) (c ∷ name)
            (arg ++ rest) clean (omega arith),
        len,
      )
  process_payload-deliver ctx node_id (reply ref arg) rest (live, word, short) =
      let text : payload_bytes (reply ref arg) ++ rest ≡ 0 ∷ (le_bytes 8 ref ++ (arg ++ rest)) =
        unfold payload_bytes in simp append_assoc in
      let size = length-payload_bytes-reply ref arg in
      let len : len_after (length (payload_bytes (reply ref arg))) 8 ≡ length arg =
        omega (arith, size) in
      rw (
        text,
        process_callback_lem ctx node_id (length (payload_bytes (reply ref arg))) ref (arg ++ rest)
            word,
        len,
      )

  IsSendable-size : (call : Call) → IsSendable call → length (payload_bytes call) < 2 ^ 16
  IsSendable-size (func name arg) h = omega (arith, length-payload_bytes-func name arg)
  IsSendable-size (reply ref arg) h = omega (arith, length-payload_bytes-reply ref arg)

  -- A header whose length the packet holds: the payload is looked at, and no more is dealt with.
  pub process_function_call-header :
      (ctx : Context Pub Sub) (node_id len : ℕ) (payload : List ℕ)
      → node_id < 2 ^ 32
      → len < 2 ^ 16
      → len ≤ length payload
      → process_function_call app ctx (header_bytes node_id len ++ payload) ≡ (
          process_payload app payload ctx
            (record { node_id = node_id; payload_len = len; payload = payload })
          >>= λ c. done (6 + len, c))
  unfolding process_function_call
  process_function_call-header ctx node_id len payload word short inside =
      let size : length (header_bytes node_id len ++ payload) ≡ 6 + length payload = omega (
        arith,
        length-append (header_bytes node_id len) payload,
        length-header_bytes node_id len,
      ) in
      let dealt : u32 (6 + len) ≡ 6 + len = omega arith in
      rw (
        read_header-header_bytes node_id len payload word short,
        size,
        le→ltb (6 + length payload) 6 (omega arith),
        le→ltb (6 + length payload - 6) len (omega arith),
        dealt,
      )

  -- Processing the frame of a call delivers the call, and deals with exactly the bytes of the frame.
  pub process_function_call-frame :
      (ctx : Context Pub Sub) (node_id : ℕ) (call : Call) (rest : List ℕ)
      → node_id < 2 ^ 32
      → IsSendable call
      → process_function_call app ctx (frame node_id call ++ rest)
        ≡ (deliver node_id rest ctx call >>= λ c. done (length (frame node_id call), c))
  unfolding frame
  process_function_call-frame ctx node_id call rest word ok =
      let body = payload_bytes call in
      let short = IsSendable-size call ok in
      let len : u16 (length body) ≡ length body = omega arith in
      let size : length (header_bytes node_id (length body) ++ body) ≡ 6 + length body = omega (
        arith,
        length-append (header_bytes node_id (length body)) body,
        length-header_bytes node_id (length body),
      ) in
      rw (
        len,
        append_assoc (header_bytes node_id (length body)) body rest,
        process_function_call-header ctx node_id (length body) (body ++ rest) word short
            (omega (arith, length-append body rest)),
        process_payload-deliver ctx node_id call rest ok,
        size,
      )

  -- For a frame with a node id below 2^32 and a payload below 2^16 bytes that ends the packet and
  -- has no terminator, as an empty payload never has, the search for the end of the name leaves the
  -- packet.
  pub process_function_call-unterminated :
      (ctx : Context Pub Sub) (node_id : ℕ) (payload : List ℕ)
      → node_id < 2 ^ 32
      → length payload < 2 ^ 16
      → c_string payload ≡ none
      → process_function_call app ctx (header_bytes node_id (length payload) ++ payload) ≡ fault
  unfolding process_payload process_named
  process_function_call-unterminated ctx node_id [] word short open_end =
      rw (process_function_call-header ctx node_id 0 [] word short (omega arith))
  process_function_call-unterminated ctx node_id (b ∷ payload) word short open_end =
      rw
        (process_function_call-header ctx node_id (length (b ∷ payload)) (b ∷ payload) word short
          (omega arith))
        (elim (Bool-cases (b == 0)) [
          | inl nul ↦ let empty : c_string (b ∷ payload) ≡ some [] = unfold c_string in rw nul in cc
          | inr text ↦ rw (text, open_end)
        ])
