-- ===== src/Rpc/OneShot.antt =====
-- A callback reference that a server calls twice: dstc_activate_callback on the client's side, and
-- dstc_process_function_call of dstc.c on the two replies.
use dstc.Base.{
  ℕ, ◌+◌, ◌^◌, ◌<◌, ◌≡◌, ◌≢◌, refl, ap, ◌∙◌, arith, List, [], ◌∷◌, ◌++◌, Option, none, some, length,
  Outcome, done, ◌>>=◌, >>=-done, >>=-cong_done,
}
use dstc.Context.{Context}
use dstc.Context.Valid.{IsValid}
use dstc.Callbacks.{find_ref, take_slot, activate_callback, find_callback_by_ref}
use dstc.Callbacks.Laws.{find_callback_by_ref-activate_callback}
use dstc.Queue.Frame.{Call, reply}
use dstc.Dispatch.{Invocation, invoke, process_packet}
use dstc.Dispatch.Deliver.{deliver}
use dstc.Dispatch.Incoming.{frames, deliver_all, process_packet-frames}
use dstc.Rpc.Server.{invoke_live}

module _ {Pub Sub : Type 0} where
  take_slot-same :
      (c d : Context Pub Sub) (slot : Option ℕ)
      → c.local_callback ≡ d.local_callback
      → (take_slot c slot).0 ≡ (take_slot d slot).0
  unfolding take_slot
  take_slot-same c d none same = refl
  take_slot-same c d (some ind) same = rw same

  -- A look-up depends on the table alone.
  pub find_callback_by_ref-same :
      (c d : Context Pub Sub) (ref : ℕ)
      → c.local_callback ≡ d.local_callback
      → c.callback_ind ≡ d.callback_ind
      → (find_callback_by_ref c ref).0 ≡ (find_callback_by_ref d ref).0
  unfolding find_callback_by_ref
  find_callback_by_ref-same c d ref table ind =
      take_slot-same c d (find_ref c.local_callback ref 0 c.callback_ind) table
      ∙ ap (λ (slot : Option ℕ). (take_slot d slot).0) (rw (table, ind))

  module _ (app : Invocation → Context Pub Sub → Outcome (Context Pub Sub)) where
    invoke_null :
        (inv : Invocation) (ctx : Context Pub Sub) → inv.func ≡ 0 → invoke app inv ctx ≡ done ctx
    unfolding invoke
    invoke_null inv ctx e = ground arith

    -- The invocation of a callback by the first of two replies.
    abbrev pub first_reply : ℕ → ℕ → ℕ → List ℕ → List ℕ → Invocation
    first_reply node_id callback_ref callback first second = record {
      func = callback;
      callback_ref = callback_ref;
      node_id = node_id;
      name = [];
      payload = first ++ frames node_id (reply callback_ref second ∷ []);
      payload_len = length first;
    }

    -- A reply to a reference that is not active calls nothing.
    deliver_null :
        (node_id callback_ref : ℕ) (arg rest : List ℕ) (c : Context Pub Sub)
        → (find_callback_by_ref c callback_ref).0 ≡ 0
        → deliver app node_id rest c (reply callback_ref arg)
          ≡ done (find_callback_by_ref c callback_ref).1
    unfolding deliver
    deliver_null node_id callback_ref arg rest c gone =
        invoke_null
          (record {
            func = (find_callback_by_ref c callback_ref).0;
            callback_ref = callback_ref;
            node_id = node_id;
            name = [];
            payload = arg ++ rest;
            payload_len = length arg;
          })
          (find_callback_by_ref c callback_ref).1 gone

    -- A callback is called once. On a valid context, after an activation that returns, of a
    -- callback and a reference that are not null, where no slot had this reference: of two replies
    -- to the reference in one packet, from a node id below 2^32 and with payloads below 2^16 bytes,
    -- the first calls the callback with its own argument and the second calls nothing, if the
    -- application's functions leave the callback table alone.
    pub process_packet-replies :
        (max_payload : ℕ) (ctx : Context Pub Sub) (callback_ref callback : ℕ) {k : ℕ}
        {ctx' : Context Pub Sub} (node_id : ℕ) (first second : List ℕ)
        → IsValid max_payload ctx
        → callback ≢ 0
        → callback_ref ≢ 0
        → find_ref ctx.local_callback callback_ref 0 ctx.callback_ind ≡ none
        → activate_callback ctx callback_ref callback ≡ done (k, ctx')
        → node_id < 2 ^ 32
        → callback_ref < 2 ^ 64
        → 9 + length first < 2 ^ 16
        → 9 + length second < 2 ^ 16
        → ((inv : Invocation) (c c' : Context Pub Sub)
            → app inv c ≡ done c'
            → (c'.local_callback ≡ c.local_callback) × (c'.callback_ind ≡ c.callback_ind))
        → process_packet app ctx'
            (frames node_id (reply callback_ref first ∷ reply callback_ref second ∷ []))
          ≡ (app
                (first_reply node_id callback_ref callback first second)
                (find_callback_by_ref ctx' callback_ref).1
              >>= λ c. done (find_callback_by_ref c callback_ref).1)
    unfolding deliver_all deliver
    process_packet-replies max_payload ctx callback_ref callback {k} {ctx'} node_id first second v
          live named fresh active word ref_word short short' keeps =
        let (found, gone) =
          find_callback_by_ref-activate_callback max_payload ctx callback_ref callback v live named
            fresh active in
        let taken = (find_callback_by_ref ctx' callback_ref).1 in
        let inv = first_reply node_id callback_ref callback first second in
        let second_call : Call = reply callback_ref second in
        process_packet-frames app ctx' node_id (reply callback_ref first ∷ second_call ∷ []) word
          ((named, ref_word, short), ((named, ref_word, short'), tt))
        ∙ ap
            (λ (f : ℕ). invoke app (record inv { func = f }) taken >>= λ c.
              deliver_all app node_id c (second_call ∷ []))
            found
        ∙ ap
            (λ (m : Outcome (Context Pub Sub)).
              m >>= λ c. deliver_all app node_id c (second_call ∷ []))
            (invoke_live app inv taken callback refl live)
        ∙ >>=-cong_done (app inv taken) _ _ λ c e.
          >>=-done (deliver app node_id (frames node_id []) c second_call)
          ∙ deliver_null node_id callback_ref second (frames node_id []) c (
              find_callback_by_ref-same c taken callback_ref (keeps inv taken c e).0
                (keeps inv taken c e).1
              ∙ gone)
