-- ===== src/Setup/Sound.antt =====
-- The setup functions of dstc.c and the soundness of the context.
use dstc.Base.{
  ℕ, ◌+◌, arith, Option, none, some, Outcome, Holds->>=, Holds-any, Holds-if, Holds-option,
}
use dstc.Rmc.{Rmc, System}
use dstc.Context.{Context, deref, context_initialized, lock_context}
use dstc.Context.Sound.{Sound, KeepsWith, lock_context-Sound, KeepsWith-unlock}
use dstc.Setup.{
  SetupArgs, setup_contexts, setup_internal, setup_epoll, setup, setup2, lock_and_init_context,
  locked, env_args, or_default,
}

module _ {Pub Sub : Type 0} (rmc : Rmc Pub Sub) (sys : System) where
  setup_contexts-KeepsWith :
      (n : ℕ) (ctx : Context Pub Sub) (a : SetupArgs)
      → Sound rmc.max_payload n ctx
      → KeepsWith rmc.max_payload n (setup_contexts rmc ctx a)
  unfolding setup_contexts
  setup_contexts-KeepsWith n ctx a h =
      Holds-any (λ r. Sound rmc.max_payload n r.1) (deref (rmc.pub_init_context _)) _
        λ pub_ctx.
          Holds-any (λ r. Sound rmc.max_payload n r.1) (deref (rmc.sub_init_context _)) _
            λ sub_ctx. (ground arith, h.1)

  setup_internal-KeepsWith :
      (n : ℕ) (ctx : Context Pub Sub) (a : SetupArgs)
      → Sound rmc.max_payload n ctx
      → KeepsWith rmc.max_payload n (setup_internal rmc ctx a)
  unfolding setup_internal
  setup_internal-KeepsWith n ctx a h =
      Holds-option (λ r. Sound rmc.max_payload n r.1) a.epoll_fd _ _ h
        λ fd.
          setup_contexts-KeepsWith n
            (record ctx {
              epoll_fd = some fd;
              remote_node_ind = 0;
              callback_ind = 0;
              pub_buffer_ind = 0;
              pub_ctx = none;
              sub_ctx = none;
            })
            a (ground arith, h.1)

  pub setup_epoll-KeepsWith :
      (n : ℕ) (ctx : Context Pub Sub) (fd : Option ℕ)
      → Sound rmc.max_payload n ctx
      → KeepsWith rmc.max_payload n (setup_epoll rmc sys ctx fd)
  unfolding setup_epoll
  setup_epoll-KeepsWith n ctx fd h =
      KeepsWith-unlock rmc.max_payload n
        (setup_internal rmc (lock_context ctx) (env_args rmc sys fd))
        (setup_internal-KeepsWith (n + 1) (lock_context ctx) (env_args rmc sys fd)
          (lock_context-Sound rmc.max_payload n ctx h))

  pub setup-KeepsWith :
      (n : ℕ) (ctx : Context Pub Sub)
      → Sound rmc.max_payload n ctx
      → KeepsWith rmc.max_payload n (setup rmc sys ctx)
  unfolding setup
  setup-KeepsWith n ctx h = setup_epoll-KeepsWith n ctx sys.epoll_create h

  pub setup2-KeepsWith :
      (n : ℕ) (ctx : Context Pub Sub) (a : SetupArgs)
      → Sound rmc.max_payload n ctx
      → KeepsWith rmc.max_payload n (setup2 rmc sys ctx a)
  unfolding setup2
  setup2-KeepsWith n ctx a h =
      let b = record a { epoll_fd = or_default a.epoll_fd (λ k. some k) sys.epoll_create } in
      Holds-if (λ r. Sound rmc.max_payload n r.1) (context_initialized ctx) _ _ h
        (KeepsWith-unlock rmc.max_payload n (setup_internal rmc (lock_context ctx) b) (
          setup_internal-KeepsWith (n + 1) (lock_context ctx) b
            (lock_context-Sound rmc.max_payload n ctx h)))

  pub lock_and_init_context-KeepsWith :
      (n : ℕ) (ctx : Context Pub Sub)
      → Sound rmc.max_payload n ctx
      → KeepsWith rmc.max_payload (n + 1) (lock_and_init_context rmc sys ctx)
  unfolding lock_and_init_context
  lock_and_init_context-KeepsWith n ctx h =
      let held = lock_context-Sound rmc.max_payload n ctx h in
      Holds-if (λ r. Sound rmc.max_payload (n + 1) r.1) (context_initialized (lock_context ctx)) _ _
        held (setup-KeepsWith (n + 1) (lock_context ctx) held)

  -- Code that keeps the context sound under the lock, and the setup on the way.
  pub locked-KeepsWith {ℓ} :
      {A : Type ℓ} (n : ℕ) (ctx : Context Pub Sub)
      (body : Context Pub Sub → Outcome (A × Context Pub Sub))
      → Sound rmc.max_payload n ctx
      → ((c : Context Pub Sub)
          → Sound rmc.max_payload (n + 1) c
          → KeepsWith rmc.max_payload (n + 1) (body c))
      → KeepsWith rmc.max_payload n (locked rmc sys ctx body)
  locked-KeepsWith n ctx body h k =
      Holds->>= (λ r. Sound rmc.max_payload (n + 1) r.1) (λ r. Sound rmc.max_payload n r.1)
        (lock_and_init_context rmc sys ctx) _ (lock_and_init_context-KeepsWith n ctx h)
        λ r held. KeepsWith-unlock rmc.max_payload n (body r.1) (k r.1 held)
