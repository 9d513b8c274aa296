-- ===== src/Poll/Vector.antt =====
-- poll.c for a program with an event loop of its own: dstc_retrieve_pollfd_vector and
-- dstc_process_poll_result.
use dstc.Base.{
  ℕ, zero, suc, ◌-◌, ◌≡◌, refl, sym, ap, le→ltb, lt→ltb, if_true, if_false, ◌∙◌, List, [], ◌∷◌,
  Option, none, some, map, length, take, ltb, arith, if◌then◌else◌, Outcome, done, ◌>>=◌,
}
use dstc.Rmc.{Rmc, System}
use dstc.Context.{lock_context}
use dstc.Setup.Laws.{unlock-lock, pub_ctx-lock_context, context_initialized_lem}
use dstc.Epoll.{Io}
use dstc.Poll.{
  PollElem, Uthash, PollContext, lock, unlock, elem_at, poll_vector, Revents, process_poll_result,
}
use dstc.Poll.Setup.{Activation, poll_lock_and_init}

abbrev pub enomem : ℕ
enomem = 12

-- What a call stores through `result` and `stored_result`.
pub record Retrieved : Type 0 where
  pub result : List PollElem
  pub stored_result : Option ℕ

length-map : {A B : Type 0} (f : A → B) (xs : List A) → length (map f xs) ≡ length xs
length-map f [] = refl
length-map f (x ∷ xs) = ap suc (length-map f xs)

module _ {Pub Sub H : Type 0} (hash : Uthash H) where
  -- `while(iter && n_events < max_result)`, with the elements from `iter` on: the entries, and
  -- the elements that are left. `max_result` is not negative.
  unfoldable pub fill_result : PollContext Pub Sub H → List ℕ → ℕ → List PollElem × List ℕ
  fill_result ctx [] max_result = ([], [])
  fill_result ctx (i ∷ iter) zero = ([], i ∷ iter)
  fill_result ctx (i ∷ iter) (suc n) =
      let (entries, rest) = fill_result ctx iter n in (elem_at hash ctx i ∷ entries, rest)

  -- What follows the loop.
  unfoldable pub finish_result :
      PollContext Pub Sub H
      → List PollElem × List ℕ
      → Outcome (ℕ × Retrieved × PollContext Pub Sub H)
  finish_result ctx (entries, i ∷ rest) =
      done (enomem, record { result = entries; stored_result = none }, unlock hash ctx)
  finish_result ctx (entries, []) =
      done (0, record { result = entries; stored_result = some (length entries) }, unlock hash ctx)

  module _ (rmc : Rmc Pub Sub) (act : Activation (PollContext Pub Sub H)) (sys : System) where
    unfoldable pub retrieve_pollfd_vector :
        PollContext Pub Sub H → ℕ → Outcome (ℕ × Retrieved × PollContext Pub Sub H)
    retrieve_pollfd_vector ctx max_result = do
      (_, ctx) ← poll_lock_and_init hash rmc act sys ctx
      finish_result ctx (fill_result ctx (hash.elems ctx.poll_hash) max_result)

    -- `dstc_process_poll_result`
    unfoldable pub process_own_poll_result :
        Io (PollContext Pub Sub H)
        → PollContext Pub Sub H
        → Option ℕ
        → Revents
        → Outcome (PollContext Pub Sub H)
    process_own_poll_result io ctx fd revents = do
      (_, ctx) ← poll_lock_and_init hash rmc act sys ctx
      ctx ← process_poll_result hash io ctx fd revents
      done (unlock hash ctx)

  fill_result_lem :
      (ctx : PollContext Pub Sub H) (iter : List ℕ) (n : ℕ)
      → (rest : List ℕ) × (fill_result ctx iter n ≡ (take n (map (elem_at hash ctx) iter), rest))
        × (length rest ≡ length iter - n)
  unfolding fill_result
  fill_result_lem ctx [] zero = ([], refl, refl)
  fill_result_lem ctx [] (suc n) = ([], refl, omega arith)
  fill_result_lem ctx (i ∷ iter) zero = (i ∷ iter, refl, omega arith)
  fill_result_lem ctx (i ∷ iter) (suc n) =
      let (rest, filled, size) = fill_result_lem ctx iter n in
      (rest, rw filled, omega (arith, size))

  unlock-lock_poll : (ctx : PollContext Pub Sub H) → unlock hash (lock hash ctx) ≡ ctx
  unfolding lock unlock
  unlock-lock_poll ctx = λ i. record ctx { base = unlock-lock ctx.base i }

  fill_result-lock :
      (ctx : PollContext Pub Sub H) (iter : List ℕ) (n : ℕ)
      → fill_result (lock hash ctx) iter n ≡ fill_result ctx iter n
  unfolding fill_result lock elem_at
  fill_result-lock ctx [] n = refl
  fill_result-lock ctx (i ∷ iter) zero = refl
  fill_result-lock ctx (i ∷ iter) (suc n) = rw (fill_result-lock ctx iter n)

  finish_result_lem :
      (ctx : PollContext Pub Sub H) (iter rest : List ℕ) (n : ℕ)
      → length rest ≡ length iter - n
      → finish_result (lock hash ctx) (take n (map (elem_at hash ctx) iter), rest) ≡ (
          let entries = take n (map (elem_at hash ctx) iter) in
          if ltb n (length iter)
          then done (enomem, record { result = entries; stored_result = none }, ctx)
          else done (0, record { result = entries; stored_result = some (length entries) }, ctx))
  unfolding finish_result
  finish_result_lem ctx iter [] n size =
      rw (unlock-lock_poll ctx) (sym (if_false _ _ (le→ltb n (length iter) (omega arith))))
  finish_result_lem ctx iter (i ∷ rest) n size =
      rw (unlock-lock_poll ctx) (sym (if_true _ _ (lt→ltb n (length iter) (omega arith))))

  retrieve-locked :
      (rmc : Rmc Pub Sub) (act : Activation (PollContext Pub Sub H)) (sys : System)
      (ctx : PollContext Pub Sub H) {pub_ctx : Pub} (max_result : ℕ)
      → ctx.base.pub_ctx ≡ some pub_ctx
      → retrieve_pollfd_vector rmc act sys ctx max_result
        ≡ finish_result
            (lock hash ctx)
            (fill_result (lock hash ctx) (hash.elems ctx.poll_hash) max_result)
  unfolding retrieve_pollfd_vector poll_lock_and_init lock
  retrieve-locked rmc act sys ctx max_result up =
      rw (context_initialized_lem (lock_context ctx.base) (pub_ctx-lock_context ctx.base ∙ up))

  -- On a context that is set up, for a max_result that is not negative: dstc_retrieve_pollfd_vector
  -- stores the entries that the library's own wait would poll, in the same order, as many as
  -- max_result allows; it returns 0 and their number if these are all, and ENOMEM without a number
  -- otherwise; the context and the lock are as before.
  pub retrieve_pollfd_vector_lem :
      (rmc : Rmc Pub Sub) (act : Activation (PollContext Pub Sub H)) (sys : System)
      (io : Io (PollContext Pub Sub H)) (ctx : PollContext Pub Sub H) {pub_ctx : Pub}
      (max_result : ℕ)
      → ctx.base.pub_ctx ≡ some pub_ctx
      → retrieve_pollfd_vector rmc act sys ctx max_result ≡ (
          let entries = take max_result (poll_vector hash io ctx) in
          if ltb max_result (length (poll_vector hash io ctx))
          then done (enomem, record { result = entries; stored_result = none }, ctx)
          else done (0, record { result = entries; stored_result = some (length entries) }, ctx))
  unfolding poll_vector
  retrieve_pollfd_vector_lem rmc act sys io ctx max_result up =
      let iter = hash.elems ctx.poll_hash in
      let (rest, filled, size) = fill_result_lem ctx iter max_result in
      retrieve-locked rmc act sys ctx max_result up
      ∙ ap (finish_result (lock hash ctx)) (fill_result-lock ctx iter max_result ∙ filled)
      ∙ finish_result_lem ctx iter rest max_result size
      ∙ rw (length-map (elem_at hash ctx) iter)
