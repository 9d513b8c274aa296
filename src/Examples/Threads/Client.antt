-- ===== src/Examples/Threads/Client.antt =====
-- The threads of examples/thread_stress/thread_stress_client.c, and the outbox of the context that they
-- share.
use dstc.Base.{
  ℕ, ◌+◌, ◌^◌, ◌≤◌, ◌<◌, ◌≡◌, inl, inr, refl, sym, ap, ◌∙◌, arith, List, [], ◌∷◌, ◌++◌, map, length,
  append-nil, ◌==◌, ltb, done, Bool-cases, ltb→lt, lt→ltb, Holds, Holds->>=, Holds-elim,
}
use dstc.Wire.{u32, le_bytes}
use dstc.Wire.Codec.{length-le_bytes}
use dstc.Rmc.{Rmc, System}
use dstc.Context.{Context}
use dstc.Queue.Frame.{Call, func, frame, length-frame, length-payload_bytes-func}
use dstc.Dispatch.Deliver.{IsSendable}
use dstc.Args.{
  Arg, fixed, client_function, size_argument, size_arguments, fill_buffer, serialize,
  serialize_argument, read_bytes,
}
use dstc.Epoll.{Os, Io}
use dstc.Epoll.Sound.{IoKeeps}
use dstc.Events.{now_turn}
use dstc.Events.Sound.{now_turn-Holds}
use dstc.Outbox.Waits.{Took, Took-Steady}
use dstc.Outbox.{QueueLaws, taken, HasTaken, map-snoc}
use dstc.Outbox.Runs.{queue_call}
use dstc.Outbox.Taken.{Represents-queue_call}
use dstc.Examples.Stress.Order.{in_a_row}
use dstc.Examples.Threads.{
  ClientThreads, start_threads, thread_name, dstc_set_value_of, switch, after_call, after_section,
  t_exec, run_threads,
}
use dstc.Examples.Threads.Turns.{values_of, values_of-append, in_a_row-snoc}

-- The four threads that `main` makes.
abbrev pub IsThread : ℕ → Type 0
IsThread ind = (0 < ind) × (ind < 5)

abbrev pub AllThreads : List ℕ → Type 0
AllThreads [] = Unit {0}
AllThreads (ind ∷ inds) = IsThread ind × AllThreads inds

-- Calls of the threads with numbers of theirs.
abbrev pub AllNumbers : List (ℕ × ℕ) → Type 0
AllNumbers [] = Unit {0}
AllNumbers ((ind, val) ∷ calls) = (IsThread ind × (val < 1000000)) × AllNumbers calls

AllNumbers-snoc :
    (calls : List (ℕ × ℕ)) (ind val : ℕ)
    → IsThread ind
    → val < 1000000
    → AllNumbers calls
    → AllNumbers (calls ++ (ind, val) ∷ [])
AllNumbers-snoc [] ind val thread below ok = ((thread, below), tt)
AllNumbers-snoc (c ∷ calls) ind val thread below (first, ok) =
    (first, AllNumbers-snoc calls ind val thread below ok)

-- The call that a thread makes for a number.
abbrev pub thread_call : ℕ × ℕ → Call
thread_call (ind, val) = func (thread_name ind) (le_bytes 4 val)

abbrev value_args : ℕ → List Arg
value_args val = fixed 4 (le_bytes 4 val) ∷ []

pub thread_call-IsSendable : (ind val : ℕ) → IsSendable (thread_call (ind, val))
thread_call-IsSendable ind val = ((λ e. cc), omega arith, omega (arith, length-le_bytes 4 val))

pub length-thread_call :
    (node_id ind val : ℕ) → length (frame node_id (thread_call (ind, val))) < 2 ^ 16
length-thread_call node_id ind val = omega (
  arith,
  length-frame node_id (thread_call (ind, val)),
  length-payload_bytes-func (thread_name ind) (le_bytes 4 val),
  length-le_bytes 4 val,
)

module _ {Pub Sub W : Type 0} (rmc : Rmc Pub Sub) (sys : System) (io : Io (Context Pub Sub))
    (os : Os W) (retries : ℕ) where
  pub fill_buffer-value : (val : ℕ) → fill_buffer (value_args val) [] ≡ done (le_bytes 4 val)
  unfolding fill_buffer serialize serialize_argument read_bytes size_arguments size_argument
      le_bytes
  fill_buffer-value val = refl

  pub switch-queue_call :
      (ctx : Context Pub Sub) (ind val : ℕ)
      → IsThread ind
      → switch rmc sys io os retries ctx ind val ≡ queue_call rmc sys ctx (thread_call (ind, val))
  unfolding switch dstc_set_value_of client_function queue_call
  switch-queue_call ctx ind val (lo, hi) =
      rw (lt→ltb 0 ind lo, lt→ltb ind 5 hi, fill_buffer-value val)

  module _ (sent : Pub → List (List ℕ)) (node_id : ℕ) (small : rmc.max_payload < 2 ^ 16)
      (laws : QueueLaws rmc sent) where
    -- What the threads have sent: each its own numbers in a row.
    abbrev pub HasSent : ClientThreads Pub Sub W → List (ℕ × ℕ) → Type 0
    HasSent s calls =
        HasTaken rmc sys sent small node_id (map thread_call calls) s.ctx
        × ((i : ℕ) → values_of i calls ≡ in_a_row 0 (s.val i))
        × ((i : ℕ) → s.val i ≤ 1000000)
        × AllNumbers calls

    HasSent-more :
        (s : ClientThreads Pub Sub W) (ind : ℕ) (ctx : Context Pub Sub) (calls : List (ℕ × ℕ))
        → IsThread ind
        → s.val ind < 1000000
        → HasTaken rmc sys sent small node_id (map thread_call (calls ++ (ind, s.val ind) ∷ [])) ctx
        → HasSent s calls
        → HasSent (after_call rmc sys io os retries s ind (0, ctx)) (calls ++ (ind, s.val ind) ∷ [])
    unfolding after_call
    HasSent-more s ind ctx calls thread below now (before, rows, limit, ok) =
        let next : u32 (s.val ind + 1) ≡ s.val ind + 1 = omega arith in
        (
          now,
          (λ i.
              rw (values_of-append i calls ((ind, s.val ind) ∷ []), next)
                (elim (Bool-cases (ind == i)) [
                  | inl same ↦
                      let e : i ≡ ind = ground arith in
                      rw same (
                        ap (λ (xs : List ℕ). xs ++ s.val ind ∷ [])
                          (rows i ∙ ap (λ (j : ℕ). in_a_row 0 (s.val j)) e)
                        ∙ in_a_row-snoc (s.val ind))
                  | inr other ↦ rw other (append-nil (values_of i calls) ∙ rows i)
                ])),
          (λ i. ground (arith, limit i)),
          AllNumbers-snoc calls ind (s.val ind) thread below ok,
        )

    module _
        (keeps : (calls : List Call)
          → IoKeeps (Took rmc sys sent node_id small laws calls) io) where
      -- In one turn a thread sends its next number, or none.
      t_exec-HasSent :
          (s : ClientThreads Pub Sub W) (ind : ℕ) (calls : List (ℕ × ℕ))
          → IsThread ind
          → HasSent s calls
          → Holds
              (λ s'. (calls' : List (ℕ × ℕ)) × HasSent s' calls')
              (t_exec rmc sys io os retries s ind)
      unfolding t_exec
      t_exec-HasSent s ind calls thread h = elim (Bool-cases (s.busy ind)) [
        | inl inside ↦
            let P = Took rmc sys sent node_id small laws (map thread_call calls) in
            rw inside (
              Holds->>= (λ r. P 0 r.1) (λ s'. (calls' : List (ℕ × ℕ)) × HasSent s' calls')
                (now_turn rmc sys io os retries s.ctx s.world) _
                (now_turn-Holds rmc sys io os P (keeps (map thread_call calls))
                  (Took-Steady rmc sys sent node_id small laws (map thread_call calls)) 0 retries
                  s.ctx s.world h.0)
                λ (returned, ctx', w') more. (calls, unfold after_section in (more, h.1, h.2, h.3)))
        | inr outside ↦ elim (Bool-cases (ltb (s.val ind) 1000000)) [
          | inr ended ↦ rw (outside, ended) (calls, h)
          | inl going ↦
              let (p, o, r, took) = h.0 in
              let val = s.val ind in
              let (res, ctx', p', o', went, r', same, known) =
                Represents-queue_call rmc sys sent node_id small laws s.ctx p o
                  (thread_call (ind, val)) r (thread_call-IsSendable ind val)
                  (length-thread_call node_id ind val) in
              let made = switch-queue_call s.ctx ind val thread ∙ went in
              elim known [
                | inl zero_res ↦
                    rw (outside, going, made, zero_res)
                      (
                        calls ++ (ind, val) ∷ [],
                        HasSent-more s ind ctx' calls thread (ltb→lt val 1000000 going)
                            (
                              p',
                              o',
                              r',
                              (rw zero_res at same)
                                  ∙ ap (λ (cs : List Call). cs ++ thread_call (ind, val) ∷ []) took
                                  ∙ sym (map-snoc thread_call calls (ind, val)),
                            )
                            h,
                      )
                | inr busy ↦
                    rw (outside, going, made, busy)
                      (
                        calls,
                        unfold after_call in
                            (
                              (p', o', r', (rw busy at same) ∙ append-nil (taken o) ∙ took),
                              h.1,
                              h.2,
                              h.3,
                            ),
                      )
              ]
        ]
      ]

      run_threads-HasSent :
          (s : ClientThreads Pub Sub W) (inds : List ℕ) (calls : List (ℕ × ℕ))
          → AllThreads inds
          → HasSent s calls
          → Holds
              (λ s'. (calls' : List (ℕ × ℕ)) × HasSent s' calls')
              (run_threads rmc sys io os retries s inds)
      unfolding run_threads
      run_threads-HasSent s [] calls threads h = (calls, h)
      run_threads-HasSent s (ind ∷ inds) calls threads h =
          let Sent : ClientThreads Pub Sub W → Type 0 =
            λ s'. (calls' : List (ℕ × ℕ)) × HasSent s' calls' in
          Holds->>= Sent Sent (t_exec rmc sys io os retries s ind) _
            (t_exec-HasSent s ind calls threads.0 h)
            λ s' (calls', h'). run_threads-HasSent s' inds calls' threads.1 h'

      pub run_threads-start :
          (ctx : Context Pub Sub) (w : W) (inds : List ℕ) {s : ClientThreads Pub Sub W}
          → AllThreads inds
          → HasTaken rmc sys sent small node_id [] ctx
          → run_threads rmc sys io os retries (start_threads ctx w) inds ≡ done s
          → (calls : List (ℕ × ℕ)) × HasSent s calls
      run_threads-start ctx w inds threads h e =
          Holds-elim (λ s'. (calls' : List (ℕ × ℕ)) × HasSent s' calls')
            (run_threads-HasSent (start_threads ctx w) inds [] threads
              (h, (λ i. refl), (λ i. omega arith), tt))
            e
