-- ===== src/Events/Returns.antt =====
-- A round of dstc_process_events(0) returns, if epoll_wait and the calls of rmc do.
use dstc.Base.{
  ℕ, zero, suc, ◌≡◌, refl, List, [], ◌∷◌, length, get_or, not, ◌%◌, ◌^◌, ◌==◌, ◌||◌, Bool, true,
  false, if◌then◌else◌, Outcome, done, ◌>>=◌,
}
use dstc.Rmc.{Rmc, System}
use dstc.Context.{Context, lock_context, unlock_context}
use dstc.Setup.{etime, eagain}
use dstc.Epoll.{
  enodata, Event, no_event, ready, Os, Io, process_epollin, process_epollout, close_on_error,
  process_epoll_result, process_events_array, wait_for_events, process_ready, process_single_event,
}
use dstc.Epoll.UserData.{user_data_index, is_pub}
use dstc.Events.{
  again_or_done, sub_timeout, process_timeout_locked, timeout_and_unlock, end_turn, now_turn,
}

-- Code that returns, and what holds of its result.
abbrev pub Returns {ℓ} : {A : Type ℓ} → (A → Type 0) → Outcome A → Type ℓ
Returns {A = A} P m = (a : A) × (m ≡ done a) × P a

pub Returns->>= {ℓ κ} :
    {A : Type ℓ} {B : Type κ} (Q : A → Type 0) (P : B → Type 0) (m : Outcome A) (f : A → Outcome B)
    → Returns Q m
    → ((a : A) → Q a → Returns P (f a))
    → Returns P (m >>= f)
Returns->>= Q P m f (a, e, q) k = let (b, e', p) = k a q in (b, rw e e', p)

Returns-if {ℓ} :
    {A : Type ℓ} (P : A → Type 0) (b : Bool) (x y : Outcome A)
    → Returns P x
    → Returns P y
    → Returns P (if b then x else y)
Returns-if P true x y h k = h
Returns-if P false x y h k = k

-- Each call of rmc returns and keeps the invariant.
pub record IoReturns {Pub Sub : Type 0} (P : Context Pub Sub → Type 0) (io : Io (Context Pub Sub))
    : Type 0 where
  pub pub_read : (i : ℕ) (c : Context Pub Sub) → P c → Returns P (io.pub_read i c)
  pub sub_read : (i : ℕ) (c : Context Pub Sub) → P c → Returns P (io.sub_read i c)
  pub pub_write : (i : ℕ) (c : Context Pub Sub) → P c → Returns (λ r. P r.1) (io.pub_write i c)
  pub sub_write : (i : ℕ) (c : Context Pub Sub) → P c → Returns (λ r. P r.1) (io.sub_write i c)
  pub pub_close_connection :
      (i : ℕ) (c : Context Pub Sub) → P c → Returns P (io.pub_close_connection i c)
  pub sub_close_connection :
      (i : ℕ) (c : Context Pub Sub) → P c → Returns P (io.sub_close_connection i c)
  pub pub_timeout_process :
      (c : Context Pub Sub) → P c → Returns (λ r. P r.1) (io.pub_timeout_process c)
  pub sub_timeout_process :
      (c : Context Pub Sub) → P c → Returns (λ r. P r.1) (io.sub_timeout_process c)

module _ {Pub Sub W : Type 0} (P : Context Pub Sub → Type 0) (io : Io (Context Pub Sub))
    (returns : IoReturns P io) (os : Os W) where
  process_epollin-Returns :
      (ctx : Context Pub Sub) (e : Event) → P ctx → Returns P (process_epollin io ctx e)
  unfolding process_epollin
  process_epollin-Returns ctx e h =
      let i = user_data_index e.data_u32 in
      Returns-if P (not e.epollin) _ _ (ctx, refl, h)
        (Returns-if P (is_pub e.data_u32) _ _ (returns.pub_read i ctx h) (returns.sub_read i ctx h))

  close_on_error-Returns :
      (i : ℕ) (close : ℕ → Context Pub Sub → Outcome (Context Pub Sub))
      (m : Outcome (ℕ × Context Pub Sub))
      → ((c : Context Pub Sub) → P c → Returns P (close i c))
      → Returns (λ r. P r.1) m
      → Returns P (m >>= close_on_error io close i)
  unfolding close_on_error
  close_on_error-Returns i close m k h =
      Returns->>= (λ r. P r.1) P m _ h
        λ (res, c) kept.
          Returns-if P (res % 2 ^ 8 == 0 || res % 2 ^ 8 == enodata) (done c) (close i c)
            (c, refl, kept) (k c kept)

  process_epollout-Returns :
      (ctx : Context Pub Sub) (e : Event) → P ctx → Returns P (process_epollout io ctx e)
  unfolding process_epollout
  process_epollout-Returns ctx e h =
      let i = user_data_index e.data_u32 in
      Returns-if P (not e.epollout) _ _ (ctx, refl, h)
        (Returns-if P (is_pub e.data_u32) _ _
          (close_on_error-Returns i io.pub_close_connection (io.pub_write i ctx)
            (returns.pub_close_connection i) (returns.pub_write i ctx h))
          (close_on_error-Returns i io.sub_close_connection (io.sub_write i ctx)
            (returns.sub_close_connection i) (returns.sub_write i ctx h)))

  process_events_array-Returns :
      (events : List Event) (k : ℕ) (ctx : Context Pub Sub)
      → P ctx
      → Returns P (process_events_array io events k ctx)
  unfolding process_events_array process_epoll_result
  process_events_array-Returns events zero ctx h = (ctx, refl, h)
  process_events_array-Returns events (suc k) ctx h =
      let e = get_or events k no_event in
      Returns->>= P P (process_epollin io ctx e >>= λ c. process_epollout io c e) _
        (Returns->>= P P (process_epollin io ctx e) _ (process_epollin-Returns ctx e h)
          λ c kept. process_epollout-Returns c e kept)
        λ c kept. process_events_array-Returns events k c kept

  process_ready-Returns :
      (ctx : Context Pub Sub) (events : List Event) (w : W)
      → P ctx
      → Returns (λ r. P r.1) (process_ready io os ctx (ready events, w))
  unfolding process_ready
  process_ready-Returns ctx [] w h = (_, refl, h)
  process_ready-Returns ctx (e ∷ events) w h =
      Returns->>= P (λ r. P r.1) (process_events_array io (e ∷ events) (length (e ∷ events)) ctx) _
        (process_events_array-Returns (e ∷ events) (length (e ∷ events)) ctx h)
        λ c kept. (_, refl, kept)

  module _ (rmc : Rmc Pub Sub) (sys : System)
      (lock : (c : Context Pub Sub) → P c → P (lock_context c))
      (unlock : (c : Context Pub Sub) → P c → P (unlock_context c)) where
    timeout_and_unlock-Returns :
        (res : ℕ) (ctx : Context Pub Sub) (w : W)
        → P ctx
        → Returns (λ r. P r.1) (timeout_and_unlock rmc sys io os res ctx w)
    unfolding timeout_and_unlock process_timeout_locked sub_timeout again_or_done
    timeout_and_unlock-Returns res ctx w h =
        Returns->>= (λ r. P r.1) (λ r. P r.1) _ _
          (Returns->>= (λ r. P r.1) (λ r. P r.1) (io.pub_timeout_process ctx) _
            (returns.pub_timeout_process ctx h)
            λ (r, c) kept.
              Returns-if (λ r. P r.1) (r == eagain) _ _ (_, refl, kept)
                (Returns->>= (λ r. P r.1) (λ r. P r.1) (io.sub_timeout_process c) _
                  (returns.sub_timeout_process c kept) λ s kept'. (_, refl, kept')))
          λ r kept. (_, refl, unlock r.1 kept)

    -- epoll_wait answers, after fewer interrupts than the bound.
    pub now_turn-Returns :
        (retries : ℕ) (ctx : Context Pub Sub) (w : W)
        → (events : List Event) (w' : W)
        → wait_for_events io os retries ctx.epoll_fd 0 w ≡ done (ready events, w')
        → P ctx
        → Returns (λ r. P r.1) (now_turn rmc sys io os retries ctx w)
    unfolding now_turn end_turn process_single_event lock_context
    now_turn-Returns retries ctx w events w1 answered h =
        let held = lock_context ctx in
        let kept = lock (unlock_context held) (unlock held (lock ctx h)) in
        Returns->>= (λ r. P r.1) (λ r. P r.1)
          (process_single_event io os retries (lock_context ctx) w 0) (end_turn rmc sys io os)
          (let (r, e, k) =
              process_ready-Returns (lock_context (unlock_context held)) events w1 kept in
            (r, rw answered e, k))
          λ (res, c, w2) k.
            Returns-if (λ r. P r.1) (res == etime) _ _
              (Returns->>= (λ r. P r.1) (λ r. P r.1) (timeout_and_unlock rmc sys io os etime c w2) _
                (timeout_and_unlock-Returns etime c w2 k) λ r k'. (_, refl, k'))
              (_, refl, unlock c k)
