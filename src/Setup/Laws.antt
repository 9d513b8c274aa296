-- ===== src/Setup/Laws.antt =====
-- The lock and the setup on the way, where the context is set up already.
use dstc.Base.{◌+◌, ◌-◌, ◌≡◌, refl, true, some, arith, Outcome, done, ◌>>=◌}
use dstc.Rmc.{Rmc, System}
use dstc.Context.{Context, context_initialized, lock_context, unlock_context}
use dstc.Setup.{lock_and_init_context, locked}

module _ {Pub Sub : Type 0} where
  pub unlock-lock : (ctx : Context Pub Sub) → unlock_context (lock_context ctx) ≡ ctx
  unfolding unlock_context lock_context
  unlock-lock ctx =
      let same : ctx.lock + 1 - 1 ≡ ctx.lock = omega arith in λ i. record ctx { lock = same i }

  pub pub_ctx-lock_context : (ctx : Context Pub Sub) → (lock_context ctx).pub_ctx ≡ ctx.pub_ctx
  unfolding lock_context
  pub_ctx-lock_context ctx = refl

  pub sub_ctx-lock_context : (ctx : Context Pub Sub) → (lock_context ctx).sub_ctx ≡ ctx.sub_ctx
  unfolding lock_context
  sub_ctx-lock_context ctx = refl

  pub context_initialized_lem :
      (ctx : Context Pub Sub) {pub_ctx : Pub}
      → ctx.pub_ctx ≡ some pub_ctx
      → context_initialized ctx ≡ true
  unfolding context_initialized
  context_initialized_lem ctx up = ground arith

  -- Where a publisher exists the lock is all that is taken.
  pub lock_and_init_context_lem :
      (rmc : Rmc Pub Sub) (sys : System) (ctx : Context Pub Sub) {pub_ctx : Pub}
      → ctx.pub_ctx ≡ some pub_ctx
      → lock_and_init_context rmc sys ctx ≡ done (0, lock_context ctx)
  unfolding lock_and_init_context lock_context
  lock_and_init_context_lem rmc sys ctx up = rw (context_initialized_lem (lock_context ctx) up)

  -- The body of an API function runs between the lock and the unlock.
  pub locked_lem {ℓ} :
      {A : Type ℓ} (rmc : Rmc Pub Sub) (sys : System) (ctx : Context Pub Sub) {pub_ctx : Pub}
      (body : Context Pub Sub → Outcome (A × Context Pub Sub))
      → ctx.pub_ctx ≡ some pub_ctx
      → locked rmc sys ctx body ≡ (body (lock_context ctx) >>= λ r. done (r.0, unlock_context r.1))
  locked_lem rmc sys ctx body up = rw (lock_and_init_context_lem rmc sys ctx up)
