-- ===== src/Dispatch/Incoming.antt =====
-- dstc_process_incoming of dstc.c on the frames of several calls, and on any bytes.
use dstc.Base.{
  ℕ, zero, suc, sym, ap, ◌∙◌, append-nil, append_assoc, ◌^◌, ◌≤◌, ◌<◌, ◌≡◌, ◌≢◌, refl, inl, inr,
  Bool-cases, List, [], ◌∷◌, ◌++◌, Option, none, some, arith, length, drop, length-append,
  length-drop, drop-append, ◌==◌, Outcome, done, out_of_fuel, ◌>>=◌, >>=-cong, >>=-tag,
  >>=-ne-out_of_fuel,
}
use dstc.Wire.{Header, read_header, c_string}
use dstc.Context.{Context, deref}
use dstc.Queue.Frame.{Call, frame, length-frame}
use dstc.Dispatch.{
  Invocation, invoke, read_ref, process_named, process_callback, process_payload,
  process_function_call, process_calls, process_packet,
}
use dstc.Dispatch.Deliver.{IsSendable, deliver, process_function_call-frame}

-- The bytes of calls that one sender queued one after the other.
unfoldable pub frames : ℕ → List Call → List ℕ
frames node_id [] = []
frames node_id (call ∷ calls) = frame node_id call ++ frames node_id calls

pub frames-snoc :
    (node_id : ℕ) (calls : List Call) (call : Call)
    → frames node_id (calls ++ call ∷ []) ≡ frames node_id calls ++ frame node_id call
unfolding frames
frames-snoc node_id [] call = append-nil (frame node_id call)
frames-snoc node_id (c ∷ calls) call =
    ap (λ (bytes : List ℕ). frame node_id c ++ bytes) (frames-snoc node_id calls call)
    ∙ sym (append_assoc (frame node_id c) (frames node_id calls) (frame node_id call))

abbrev pub AllSendable : List Call → Type 0
AllSendable [] = Unit {0}
AllSendable (call ∷ calls) = IsSendable call × AllSendable calls

deref-ne-out_of_fuel : {A : Type 0} (p : Option A) → deref p ≢ out_of_fuel
deref-ne-out_of_fuel none = λ e. cc
deref-ne-out_of_fuel (some a) = λ e. cc

read_ref-ne-out_of_fuel : (bytes : List ℕ) → read_ref bytes ≢ out_of_fuel
unfolding read_ref
read_ref-ne-out_of_fuel bytes = λ e. ground arith

module _ {Pub Sub : Type 0} (app : Invocation → Context Pub Sub → Outcome (Context Pub Sub)) where
  -- What the calls mean at the receiver: each is delivered to the context that the ones before left.
  unfoldable pub deliver_all : ℕ → Context Pub Sub → List Call → Outcome (Context Pub Sub)
  deliver_all node_id ctx [] = done ctx
  deliver_all node_id ctx (call ∷ calls) = do
    ctx ← deliver app node_id (frames node_id calls) ctx call
    deliver_all node_id ctx calls

  -- Where a packet has bytes left, fewer than 2^32, the processing of a call that returns deals
  -- with a byte at least, and with no more than there are.
  pub process_function_call-bounds :
      (ctx : Context Pub Sub) (data_bytes : List ℕ) {n : ℕ} {ctx' : Context Pub Sub}
      → length data_bytes < 2 ^ 32
      → 0 < length data_bytes
      → process_function_call app ctx data_bytes ≡ done (n, ctx')
      → (0 < n) × (n ≤ length data_bytes)
  unfolding process_function_call
  process_function_call-bounds ctx data_bytes small some_bytes e = ground arith

  process_calls-cons :
      (fuel : ℕ) (ctx : Context Pub Sub) (data_bytes : List ℕ)
      → 0 < length data_bytes
      → process_calls app (suc fuel) ctx data_bytes ≡ (
          process_function_call app ctx data_bytes >>= λ (n, ctx).
          process_calls app fuel ctx (drop n data_bytes))
  unfolding process_calls
  process_calls-cons fuel ctx [] h = absurd (omega arith)
  process_calls-cons fuel ctx (b ∷ bytes) h = refl

  process_calls-nil : (fuel : ℕ) (ctx : Context Pub Sub) → process_calls app fuel ctx [] ≡ done ctx
  unfolding process_calls
  process_calls-nil zero ctx = refl
  process_calls-nil (suc fuel) ctx = refl

  process_calls-frames :
      (fuel : ℕ) (ctx : Context Pub Sub) (node_id : ℕ) (calls : List Call)
      → node_id < 2 ^ 32
      → AllSendable calls
      → length (frames node_id calls) ≤ fuel
      → process_calls app fuel ctx (frames node_id calls) ≡ deliver_all node_id ctx calls
  unfolding frames deliver_all
  process_calls-frames fuel ctx node_id [] word ok h = process_calls-nil fuel ctx
  process_calls-frames zero ctx node_id (call ∷ calls) word ok h = absurd (
      omega (
        arith,
        length-append (frame node_id call) (frames node_id calls),
        length-frame node_id call,
      ))
  process_calls-frames (suc fuel) ctx node_id (call ∷ calls) word ok h =
      let part = frame node_id call in
      let later = frames node_id calls in
      let size = length-append part later in
      let head = length-frame node_id call in
      rw
        (
          process_calls-cons fuel ctx (part ++ later) (omega arith),
          process_function_call-frame app ctx node_id call later word ok.0,
          >>=-tag (deliver app node_id later ctx call) (length part),
          drop-append part later (length part) refl,
        )
        (>>=-cong (deliver app node_id later ctx call) _ _
          λ c. process_calls-frames fuel c node_id calls word ok.1 (omega arith))

  -- For a sender with a node id below 2^32 and calls that a sender can make, the processing of
  -- their frames delivers the calls in their order, each to the context that the one before left,
  -- and nothing else.
  pub process_packet-frames :
      (ctx : Context Pub Sub) (node_id : ℕ) (calls : List Call)
      → node_id < 2 ^ 32
      → AllSendable calls
      → process_packet app ctx (frames node_id calls) ≡ deliver_all node_id ctx calls
  unfolding process_packet
  process_packet-frames ctx node_id calls word ok =
      process_calls-frames (length (frames node_id calls)) ctx node_id calls word ok (omega arith)

  module _ (app_ends : (inv : Invocation) (ctx : Context Pub Sub) → app inv ctx ≢ out_of_fuel) where
    invoke_ends : (inv : Invocation) (ctx : Context Pub Sub) → invoke app inv ctx ≢ out_of_fuel
    unfolding invoke
    invoke_ends inv ctx = elim (Bool-cases (inv.func == 0)) [
      | inl null ↦ λ e. ground arith
      | inr live ↦ rw live (app_ends inv ctx)
    ]

    process_payload_ends :
        (bytes : List ℕ) (ctx : Context Pub Sub) (call : Header)
        → process_payload app bytes ctx call ≢ out_of_fuel
    unfolding process_payload process_named process_callback
    process_payload_ends [] ctx call = λ e. cc
    process_payload_ends (b ∷ bytes) ctx call = elim (Bool-cases (b == 0)) [
      | inl nul ↦ rw nul (
          >>=-ne-out_of_fuel (read_ref (drop 1 call.payload)) _
            (read_ref-ne-out_of_fuel (drop 1 call.payload)) (λ ref _. invoke_ends _ _))
      | inr text ↦ rw text (
          >>=-ne-out_of_fuel _ _ (deref-ne-out_of_fuel (c_string call.payload))
            (λ name _. invoke_ends _ _))
    ]

    process_function_call_ends :
        (ctx : Context Pub Sub) (data_bytes : List ℕ)
        → process_function_call app ctx data_bytes ≢ out_of_fuel
    unfolding process_function_call
    process_function_call_ends ctx data_bytes = λ e.
        ground (
          arith,
          process_payload_ends (read_header data_bytes).payload ctx (read_header data_bytes),
        )

    process_calls_ends :
        (fuel : ℕ) (ctx : Context Pub Sub) (data_bytes : List ℕ)
        → length data_bytes < 2 ^ 32
        → length data_bytes ≤ fuel
        → process_calls app fuel ctx data_bytes ≢ out_of_fuel
    process_calls_ends fuel ctx [] small enough = rw (process_calls-nil fuel ctx) (λ e. cc)
    process_calls_ends zero ctx (b ∷ bytes) small enough = absurd (omega arith)
    process_calls_ends (suc fuel) ctx (b ∷ bytes) small enough =
        rw (process_calls-cons fuel ctx (b ∷ bytes) (omega arith)) (
          >>=-ne-out_of_fuel (process_function_call app ctx (b ∷ bytes)) _
            (process_function_call_ends ctx (b ∷ bytes))
            λ (n, ctx') e.
              let bounds = process_function_call-bounds ctx (b ∷ bytes) small (omega arith) e in
              process_calls_ends fuel ctx' (drop n (b ∷ bytes))
                (omega (arith, length-drop n (b ∷ bytes)))
                (omega (arith, length-drop n (b ∷ bytes))))

    -- The loop over a packet ends: for a payload of any bytes, fewer than 2^32, as many rounds as
    -- it has bytes are enough, if the application's functions do not run out of fuel themselves.
    pub process_packet-ne-out_of_fuel :
        (ctx : Context Pub Sub) (payload : List ℕ)
        → length payload < 2 ^ 32
        → process_packet app ctx payload ≢ out_of_fuel
    unfolding process_packet
    process_packet-ne-out_of_fuel ctx payload small =
        process_calls_ends (length payload) ctx payload small (omega arith)
