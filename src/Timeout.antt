-- ===== src/Timeout.antt =====
-- dstc.c, how long a wait may last: _dstc_get_next_timeout_abs and _dstc_get_timeout_msec_rel. An
-- `int` is its bit pattern, a number below 2 ^ 32.
pub mod Laws
use dstc.Base.{
  ℕ, ◌+◌, ◌-◌, ◌/◌, ◌^◌, Bool, not, Option, none, some, ltb, if◌then◌else◌, Outcome, done, ◌>>=◌,
}
use dstc.Wire.{u32}
use dstc.Rmc.{Rmc, System}
use dstc.Context.{Context, deref}
use dstc.Setup.{locked}

-- -1, and `a < b`, as `int`s.
abbrev pub minus_one : ℕ
minus_one = 2 ^ 32 - 1

abbrev pub int_lt : ℕ → ℕ → Bool
int_lt a b = ltb (u32 (a + 2 ^ 31)) (u32 (b + 2 ^ 31))

-- From the time stamps of the publisher and of the subscriber, in microseconds, to the earlier one in
-- milliseconds. `none` is -1.
unfoldable pub shortest : Option ℕ → Option ℕ → Option ℕ
shortest none none = none
shortest none (some sub_ts) = some (sub_ts / 1000)
shortest (some pub_ts) none = some (pub_ts / 1000)
shortest (some pub_ts) (some sub_ts) =
    if ltb pub_ts sub_ts then some (pub_ts / 1000) else some (sub_ts / 1000)

-- From a point in time to the milliseconds until then, returned as an `int`.
unfoldable pub time_left : Option ℕ → ℕ → ℕ
time_left none current_time = minus_one
time_left (some tout) current_time =
    if ltb tout current_time then 0 else u32 (tout - current_time + 1)

module _ {Pub Sub : Type 0} (rmc : Rmc Pub Sub) (sys : System) where
  unfoldable pub get_next_timeout_abs : Context Pub Sub → Outcome (Option ℕ × Context Pub Sub)
  get_next_timeout_abs ctx = locked rmc sys ctx λ ctx. do
    pub_ctx ← deref ctx.pub_ctx
    sub_ctx ← deref ctx.sub_ctx
    done (shortest (rmc.pub_timeout_get_next pub_ctx) (rmc.sub_timeout_get_next sub_ctx), ctx)

  unfoldable pub get_timeout_msec_rel : Context Pub Sub → ℕ → Outcome (ℕ × Context Pub Sub)
  get_timeout_msec_rel ctx current_time = do
    (tout, ctx) ← get_next_timeout_abs ctx
    done (time_left tout current_time, ctx)
