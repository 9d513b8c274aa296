-- ===== src/Examples/Stress/Client.antt =====
-- The loop of examples/stress/stress_client.c that sends the numbers, and its outbox.
use dstc.Base.{
  ℕ, zero, suc, ◌+◌, ◌^◌, ◌<◌, ◌≡◌, inl, inr, refl, sym, ap, ◌∙◌, subst, arith, List, [], ◌∷◌, ◌++◌,
  map, length, append-nil, append_assoc, Outcome, done, Holds, Holds->>=, Holds-elim,
}
use dstc.Wire.{u32, le_bytes}
use dstc.Wire.Codec.{length-le_bytes}
use dstc.Rmc.{Rmc, System}
use dstc.Context.{Context}
use dstc.Queue.Frame.{Call, func, frame, length-frame, length-payload_bytes-func}
use dstc.Dispatch.Deliver.{IsSendable}
use dstc.Args.{Arg, fixed, client_function, size_argument, size_arguments}
use dstc.Args.RoundTrip.{AllReadable, fill_buffer_lem}
use dstc.Rpc.Client.{argument_bytes, length-argument_bytes}
use dstc.Outbox.{QueueLaws, taken, HasTaken}
use dstc.Outbox.Runs.{queue_call}
use dstc.Outbox.Taken.{Represents-queue_call}
use dstc.Epoll.{Os, Io}
use dstc.Epoll.Sound.{IoKeeps}
use dstc.Events.{process_events}
use dstc.Outbox.Waits.{Took, process_events-Took}
use dstc.Examples.Stress.{set_value_name, dstc_set_value, retry_value, send_value, send_values}
use dstc.Examples.Stress.Order.{in_a_row}

abbrev value_args : ℕ → List Arg
value_args val = fixed 4 (le_bytes 4 val) ∷ []

-- The call that `dstc_set_value(val)` makes.
abbrev pub value_call : ℕ → Call
value_call val = func set_value_name (argument_bytes (value_args val) [])

value_args-AllReadable : (val : ℕ) → AllReadable (value_args val)
value_args-AllReadable val = (omega (arith, length-le_bytes 4 val), tt)

size_arguments-value_args : (val : ℕ) → size_arguments (value_args val) ≡ 4
unfolding size_arguments size_argument
size_arguments-value_args val = refl

value_call-IsSendable : (val : ℕ) → IsSendable (value_call val)
value_call-IsSendable val = (
  (λ e. cc),
  omega arith,
  omega (
    arith,
    length-argument_bytes (value_args val) [] (value_args-AllReadable val),
    size_arguments-value_args val,
  ),
)

length-value_call : (node_id val : ℕ) → length (frame node_id (value_call val)) < 2 ^ 16
length-value_call node_id val =
    let bytes = argument_bytes (value_args val) [] in
    omega (
      arith,
      length-frame node_id (value_call val),
      length-payload_bytes-func set_value_name bytes,
      length-argument_bytes (value_args val) [] (value_args-AllReadable val),
      size_arguments-value_args val,
    )

module _ {Pub Sub W : Type 0} (rmc : Rmc Pub Sub) (sys : System) (io : Io (Context Pub Sub))
    (os : Os W) (retries bound : ℕ) where
  -- dstc_process_events
  abbrev pub waiting : Context Pub Sub → W → ℕ → Outcome (ℕ × Context Pub Sub × W)
  waiting = process_events rmc sys io os retries bound

  dstc_set_value-queue_call :
      (ctx : Context Pub Sub) (val : ℕ)
      → dstc_set_value rmc sys waiting ctx val ≡ queue_call rmc sys ctx (value_call val)
  unfolding dstc_set_value client_function queue_call
  dstc_set_value-queue_call ctx val = rw (
      fill_buffer_lem (value_args val) [] (value_args-AllReadable val)
        (omega (arith, size_arguments-value_args val)))

  module _ (sent : Pub → List (List ℕ)) (node_id : ℕ) (small : rmc.max_payload < 2 ^ 16)
      (laws : QueueLaws rmc sent) where
    module _
        (keeps : (calls : List Call)
          → IoKeeps (Took rmc sys sent node_id small laws calls) io) where
      abbrev Has : List Call → Context Pub Sub → Type 0
      Has calls ctx = HasTaken rmc sys sent small node_id calls ctx

      send_value-Took :
          (fuel timeout : ℕ) (calls : List Call) (ctx : Context Pub Sub) (w : W) (val : ℕ)
          → Has calls ctx
          → Holds
              (λ r. Has (calls ++ value_call val ∷ []) r.0)
              (send_value rmc sys waiting fuel timeout ctx w val)
      unfolding send_value retry_value
      send_value-Took zero timeout calls ctx w val h = tt
      send_value-Took (suc fuel) timeout calls ctx w val (p, o, r, took) =
          let (res, ctx', p', o', went, r', same, known) =
            Represents-queue_call rmc sys sent node_id small laws ctx p o (value_call val) r
              (value_call-IsSendable val) (length-value_call node_id val) in
          rw (dstc_set_value-queue_call ctx val, went)
            (elim known [
              | inl zero_res ↦ rw zero_res (
                p',
                o',
                r',
                (rw zero_res at same) ∙ ap (λ (cs : List Call). cs ++ value_call val ∷ []) took,
              )
              | inr busy ↦
                  let none_more : taken o' ≡ calls =
                    (rw busy at same) ∙ append-nil (taken o) ∙ took in
                  rw busy (
                    Holds->>= (λ r. Has calls r.1) (λ r. Has (calls ++ value_call val ∷ []) r.0)
                      (waiting ctx' w timeout) _
                      (process_events-Took rmc sys sent node_id small laws io os retries bound calls
                        ctx' w timeout (keeps calls) (p', o', r', none_more))
                      λ r k. send_value-Took fuel timeout calls r.1 r.2 val k)
            ])

      send_values-Took :
          (fuel rounds : ℕ) (calls : List Call) (ctx : Context Pub Sub) (w : W) (val : ℕ)
          → val + rounds < 2 ^ 32
          → Has calls ctx
          → Holds
              (λ r. Has (calls ++ map value_call (in_a_row val rounds)) r.0)
              (send_values rmc sys waiting fuel rounds ctx w val)
      unfolding send_values
      send_values-Took fuel zero calls ctx w val fits h =
          subst (λ (cs : List Call). Has cs ctx) (sym (append-nil calls)) h
      send_values-Took fuel (suc rounds) calls ctx w val fits h =
          let later = map value_call (in_a_row (val + 1) rounds) in
          Holds->>= (λ r. Has (calls ++ value_call val ∷ []) r.0)
            (λ r. Has (calls ++ value_call val ∷ later) r.0)
            (send_value rmc sys waiting fuel 1 ctx w val) _
            (send_value-Took fuel 1 calls ctx w val h)
            λ r k.
              let next : u32 (val + 1) ≡ val + 1 = omega arith in
              rw next (
                subst
                  (λ (cs : List Call).
                    Holds (λ s. Has cs s.0)
                      (send_values rmc sys waiting fuel rounds r.0 r.1 (val + 1)))
                  (append_assoc calls (value_call val ∷ []) later)
                  (send_values-Took fuel rounds (calls ++ value_call val ∷ []) r.0 r.1 (val + 1)
                    (omega arith) k))

      -- On a context that stands for an outbox, with RMC_MAX_PAYLOAD below 2^16, where rmc fails no
      -- packet unless it is suspended, sends packets in order and keeps its id, and where the calls
      -- of rmc from inside of dstc_process_events, with the callbacks they make, neither take a
      -- call back nor add one: the loop of examples/stress that sends the numbers from 0 on, fewer
      -- than 2^32, and at each EBUSY runs dstc_process_events and sends the number again, has, if
      -- it returns, made the outbox take the call for each number once, in order, behind the calls
      -- of before. This is so for every clock, lock and epoll_wait.
      pub send_values-taken :
          (fuel rounds : ℕ) (ctx : Context Pub Sub) (w : W) (calls : List Call)
          {ctx' : Context Pub Sub} {w' : W}
          → rounds < 2 ^ 32
          → HasTaken rmc sys sent small node_id calls ctx
          → send_values rmc sys waiting fuel rounds ctx w 0 ≡ done (ctx', w')
          → HasTaken rmc sys sent small node_id (calls ++ map value_call (in_a_row 0 rounds)) ctx'
      send_values-taken fuel rounds ctx w calls fits h e =
          Holds-elim (λ r. Has (calls ++ map value_call (in_a_row 0 rounds)) r.0)
            (send_values-Took fuel rounds calls ctx w 0 (omega arith) h) e
