-- ===== src/Context/Sound.antt =====
-- The invariant of `dstc_context_t` together with how often the lock is held, and code that keeps
-- both.
use dstc.Base.{ℕ, ◌+◌, ◌≡◌, arith, Outcome, done, ◌>>=◌, Holds, Holds->>=}
use dstc.Context.{Context, lock_context, unlock_context}
use dstc.Context.Valid.{IsValid}

module _ {Pub Sub : Type 0} (max_payload : ℕ) where
  abbrev pub Sound : ℕ → Context Pub Sub → Type 0
  Sound n ctx = IsValid max_payload ctx × (ctx.lock ≡ n)

  -- The context is sound if the code returns.
  abbrev pub Keeps : ℕ → Outcome (Context Pub Sub) → Type 0
  Keeps n m = Holds (Sound n) m

  abbrev pub KeepsWith {ℓ} : {A : Type ℓ} → ℕ → Outcome (A × Context Pub Sub) → Type 0
  KeepsWith n m = Holds (λ r. Sound n r.1) m

  pub lock_context-Sound :
      (n : ℕ) (ctx : Context Pub Sub) → Sound n ctx → Sound (n + 1) (lock_context ctx)
  unfolding lock_context
  lock_context-Sound n ctx h = (ground arith, omega (arith, h.1))

  pub unlock_context-Sound :
      (n : ℕ) (ctx : Context Pub Sub) → Sound (n + 1) ctx → Sound n (unlock_context ctx)
  unfolding unlock_context
  unlock_context-Sound n ctx h = (ground arith, omega (arith, h.1))

  -- An unlock of a lock that is not held leaves it so.
  pub unlock_context-free : (ctx : Context Pub Sub) → Sound 0 ctx → Sound 0 (unlock_context ctx)
  unfolding unlock_context
  unlock_context-free ctx h = (ground arith, omega (arith, h.1))

  -- Code between the lock and the unlock.
  pub Keeps-unlock :
      (n : ℕ) (m : Outcome (Context Pub Sub))
      → Keeps (n + 1) m
      → Keeps n (m >>= λ ctx. done (unlock_context ctx))
  Keeps-unlock n m h =
      Holds->>= (Sound (n + 1)) (Sound n) m _ h λ ctx k. unlock_context-Sound n ctx k

  pub KeepsWith-unlock {ℓ} :
      {A : Type ℓ} (n : ℕ) (m : Outcome (A × Context Pub Sub))
      → KeepsWith (n + 1) m
      → KeepsWith n (m >>= λ r. done (r.0, unlock_context r.1))
  KeepsWith-unlock n m h =
      Holds->>= (λ r. Sound (n + 1) r.1) (λ r. Sound n r.1) m _ h
        λ r k. unlock_context-Sound n r.1 k

  pub Keeps-with {ℓ} :
      {A : Type ℓ} (n : ℕ) (a : A) (m : Outcome (Context Pub Sub))
      → Keeps n m
      → KeepsWith n (m >>= λ ctx. done (a, ctx))
  Keeps-with n a m h = Holds->>= (Sound n) (λ r. Sound n r.1) m _ h λ ctx k. k

  pub Keeps-forget {ℓ} :
      {A : Type ℓ} (n : ℕ) (m : Outcome (A × Context Pub Sub))
      → KeepsWith n m
      → Keeps n (m >>= λ r. done r.1)
  Keeps-forget n m h = Holds->>= (λ r. Sound n r.1) (Sound n) m _ h λ r k. k
