-- ===== src/Examples/Stress/Order.antt =====
-- The check of the stress servers: what passes it.
use dstc.Base.{
  ℕ, zero, suc, ◌+◌, ◌<◌, ◌≡◌, ◌≢◌, ◌⊎◌, refl, sym, ap, ◌∙◌, arith, false, List, [], ◌∷◌, length,
  ◌==◌, Bool-cases, inl, inr, done, exit, ◌>>=◌,
}
use dstc.Rmc.{Rmc, System}
use dstc.Context.{Context}
use dstc.Timeout.{minus_one}
use dstc.Epoll.{Os, Io}
use dstc.Examples.Statics.{Statics}
use dstc.Examples.Stress.{int_max, next_int, check_value, set_value, set_values}

-- So many numbers in a row.
abbrev pub in_a_row : ℕ → ℕ → List ℕ
in_a_row first zero = []
in_a_row first (suc n) = first ∷ in_a_row (first + 1) n

-- Numbers that are not negative, and that an `int` can count beyond.
abbrev pub AllInts : List ℕ → Type 0
AllInts [] = Unit {0}
AllInts (v ∷ vs) = (v < int_max) × AllInts vs

abbrev rest_of : List ℕ → List ℕ
rest_of [] = []
rest_of (v ∷ vs) = vs

check_value-next : (last v : ℕ) → last < int_max → v ≡ last + 1 → check_value last v ≡ done v
unfolding check_value next_int
check_value-next last v h e = ground arith

check_value-gap : (last v : ℕ) → last < int_max → v ≢ last + 1 → check_value last v ≡ exit 255
unfolding check_value next_int
check_value-gap last v h e = ground arith

module _ {Pub Sub W : Type 0} (rmc : Rmc Pub Sub) (sys : System) (io : Io (Context Pub Sub))
    (os : Os W) (world : Statics (Context Pub Sub) W) (retries rounds : ℕ)
    (statics : Statics (Context Pub Sub) ℕ) where
  set_value_lem :
      (ctx : Context Pub Sub) (last v : ℕ)
      → v < int_max
      → statics.read ctx ≡ last
      → set_value rmc sys io os world retries rounds statics v ctx
        ≡ (check_value last v >>= λ k. done (statics.write k ctx))
  unfolding set_value
  set_value_lem ctx last v h e =
      let plain : (v == minus_one) ≡ false = ground arith in rw (plain, e) refl

  -- After a value, the next ones pass if they follow it in a row, and end the process otherwise.
  set_values-after :
      (last : ℕ) (vs : List ℕ) (ctx : Context Pub Sub)
      → statics.read ctx ≡ last
      → last < int_max
      → AllInts vs
      → ((vs ≡ in_a_row (last + 1) (length vs))
          × (ctx' : Context Pub Sub) × (set_values rmc sys io os world retries rounds statics vs ctx
              ≡ done ctx')
          × (statics.read ctx' ≡ last + length vs))
        ⊎ ((vs ≢ in_a_row (last + 1) (length vs))
            × (set_values rmc sys io os world retries rounds statics vs ctx ≡ exit 255))
  unfolding set_values
  set_values-after last [] ctx at h ok = inl (refl, ctx, refl, omega (arith, at))
  set_values-after last (v ∷ vs) ctx at h ok = elim (Bool-cases (v == last + 1)) [
    | inr other ↦
        let gap : v ≢ last + 1 = λ e. ground arith in
        inr (
          (λ e. gap (cc)),
          rw (set_value_lem ctx last v ok.0 at, check_value-gap last v h gap) refl,
        )
    | inl same ↦
        let next : v ≡ last + 1 = ground arith in
        let taken =
          set_value_lem ctx last v ok.0 at
          ∙ ap (λ m. m >>= λ k. done (statics.write k ctx)) (check_value-next last v h next) in
        elim (set_values-after v vs (statics.write v ctx) (statics.read-write v ctx) ok.0 ok.1) [
          | inl (row, ctx', passed, now) ↦ inl (
            ap (◌∷◌ v) row ∙ ap (λ (n : ℕ). n ∷ in_a_row (n + 1) (length vs)) next,
            ctx',
            rw taken passed,
            omega (arith, now),
          )
          | inr (broken, ended) ↦ inr (
            (λ e. broken (ap rest_of e ∙ ap (λ (n : ℕ). in_a_row (n + 1) (length vs)) (sym next))),
            rw taken ended,
          )
        ]
  ]

  -- From its start the server of examples/stress, if it gets numbers from 0 up to INT_MAX - 1:
  -- takes all of them, and last_value is the last of them, if each is the one before and 1,
  -- whatever the first is; and ends the process by exit(255) otherwise, so that no loss, no
  -- doubling and no swap goes unnoticed.
  pub set_values-in_a_row :
      (v : ℕ) (vs : List ℕ) (ctx : Context Pub Sub)
      → statics.read ctx ≡ minus_one
      → AllInts (v ∷ vs)
      → ((vs ≡ in_a_row (v + 1) (length vs))
          × (ctx' : Context Pub Sub) × (set_values rmc sys io os world retries rounds statics
                (v ∷ vs)
                ctx
              ≡ done ctx')
          × (statics.read ctx' ≡ v + length vs))
        ⊎ ((vs ≢ in_a_row (v + 1) (length vs))
            × (set_values rmc sys io os world retries rounds statics (v ∷ vs) ctx ≡ exit 255))
  unfolding set_values check_value
  set_values-in_a_row v vs ctx start ok =
      rw (set_value_lem ctx minus_one v ok.0 start)
        (set_values-after v vs (statics.write v ctx) (statics.read-write v ctx) ok.0 ok.1)
