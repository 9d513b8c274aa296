-- ===== src/Dispatch.antt =====
-- dstc.c, inbound calls: dstc_process_function_call and dstc_process_incoming. The functions that the
-- application registered are a parameter: what such a function does to the context, which may itself
-- call DSTC, and how it ends.
pub mod Deliver
pub mod Incoming
pub mod Sound
use dstc.Base.{
  ℕ, zero, suc, ◌+◌, ◌-◌, ◌%◌, ◌^◌, List, [], ◌∷◌, Option, none, some, length, take, drop, ltb,
  ◌==◌, if◌then◌else◌, Outcome, done, exit, fault, out_of_fuel, ◌>>=◌,
}
use dstc.Wire.{u16, u32, le_value, header_size, ref_size, Header, read_header, c_string}
use dstc.Rmc.{Rmc}
use dstc.Context.{Context, deref, lock_context, unlock_context}
use dstc.Symtab.Local.{find_server_function}
use dstc.Callbacks.{find_callback_by_ref}

-- The arguments of a call through a `dstc_internal_dispatch_t`, with the function that is called.
-- `payload` is the memory from the pointer to the end of the packet: the length is passed beside it.
pub record Invocation : Type 0 where
  pub func : ℕ
  pub callback_ref : ℕ
  pub node_id : ℕ
  pub name : List ℕ
  pub payload : List ℕ
  pub payload_len : ℕ

-- `a - b - 1` as a `size_t`, passed as a `uint16_t`.
abbrev pub len_after : ℕ → ℕ → ℕ
len_after a b = (a + 2 ^ 64 - b - 1) % 2 ^ 16

-- `*((dstc_callback_t*) p)`: eight bytes, which the packet must hold.
unfoldable pub read_ref : List ℕ → Outcome ℕ
read_ref bytes =
    if ltb (length bytes) ref_size then fault else done (le_value (take ref_size bytes))

module _ {Pub Sub : Type 0} (app : Invocation → Context Pub Sub → Outcome (Context Pub Sub)) where
  -- `(*local_func_ptr)(…)`, unless the pointer is null.
  unfoldable pub invoke : Invocation → Context Pub Sub → Outcome (Context Pub Sub)
  invoke inv ctx = if inv.func == 0 then done ctx else app inv ctx

  -- The name is not empty: a server function. The name ends at its terminator, wherever that is.
  unfoldable pub process_named : Context Pub Sub → Header → Outcome (Context Pub Sub)
  process_named ctx call = do
    name ← deref (c_string call.payload)
    let name_len = length name
    invoke
        (record {
          func = find_server_function ctx name;
          callback_ref = 0;
          node_id = call.node_id;
          name = name;
          payload = drop (name_len + 1) call.payload;
          payload_len = len_after call.payload_len name_len;
        })
        ctx

  -- The name is empty: eight bytes behind it name the callback.
  unfoldable pub process_callback : Context Pub Sub → Header → Outcome (Context Pub Sub)
  process_callback ctx call = do
    callback_ref ← read_ref (drop 1 call.payload)
    let (func, ctx) = find_callback_by_ref ctx callback_ref
    invoke
        (record {
          func = func;
          callback_ref = callback_ref;
          node_id = call.node_id;
          name = [];
          payload = drop (1 + ref_size) call.payload;
          payload_len = len_after call.payload_len ref_size;
        })
        ctx

  -- `if (call->payload[0])`; without a first byte the read is past the packet.
  unfoldable pub process_payload : List ℕ → Context Pub Sub → Header → Outcome (Context Pub Sub)
  process_payload [] ctx call = fault
  process_payload (b ∷ rest) ctx call =
      if b == 0 then process_callback ctx call else process_named ctx call

  -- The result is how many bytes of the packet are dealt with.
  unfoldable pub process_function_call : Context Pub Sub → List ℕ → Outcome (ℕ × Context Pub Sub)
  process_function_call ctx data_bytes =
      let data_len = length data_bytes in
      let call = read_header data_bytes in
      if ltb data_len header_size
      then done (data_len, ctx)
      else if ltb (data_len - header_size) call.payload_len
      then done (data_len, ctx)
      else process_payload call.payload ctx call >>= λ ctx.
          done (u32 (header_size + call.payload_len), ctx)

  -- `while(ind < payload_len)`, over the bytes that are left.
  unfoldable pub process_calls : ℕ → Context Pub Sub → List ℕ → Outcome (Context Pub Sub)
  process_calls fuel ctx [] = done ctx
  process_calls zero ctx (b ∷ bytes) = out_of_fuel
  process_calls (suc fuel) ctx (b ∷ bytes) = do
    (n, ctx) ← process_function_call ctx (b ∷ bytes)
    process_calls fuel ctx (drop n (b ∷ bytes))

  -- Every round deals with a byte at least, so that the length of the packet is fuel enough.
  unfoldable pub process_packet : Context Pub Sub → List ℕ → Outcome (Context Pub Sub)
  process_packet ctx payload = process_calls (length payload) ctx payload

  module _ (rmc : Rmc Pub Sub) where
    -- The outer loop, with a bound on the number of packets. A packet counts as dispatched before
    -- its calls are made.
    unfoldable pub process_packets : ℕ → Context Pub Sub → Outcome (Context Pub Sub)
    process_packets zero ctx = do
      sub_ctx ← deref ctx.sub_ctx
      elim (rmc.sub_get_next_dispatch_ready sub_ctx) [
        | none ↦ done ctx
        | some payload ↦ out_of_fuel
      ]
    process_packets (suc fuel) ctx = do
      sub_ctx ← deref ctx.sub_ctx
      elim (rmc.sub_get_next_dispatch_ready sub_ctx) [
        | none ↦ done ctx
        | some payload ↦ do
          let taken = rmc.sub_packet_dispatched_keep_payload sub_ctx
          ctx ← process_packet (record ctx { sub_ctx = some taken }) payload
          process_packets fuel ctx
      ]

    unfoldable pub process_incoming : ℕ → Context Pub Sub → Outcome (Context Pub Sub)
    process_incoming fuel ctx = do
      ctx ← process_packets fuel (lock_context ctx)
      done (unlock_context ctx)
