-- ===== src/Epoll/UserData.antt =====
-- The user data of an event: TO_POLL_EVENT_USER_DATA and FROM_POLL_EVENT_USER_DATA of dstc.h, and
-- IS_PUB of dstc_internal.h. A connection's index, and two flags above it.
use dstc.Base.{ℕ, ◌+◌, ◌/◌, ◌%◌, ◌^◌, ◌<◌, ◌≡◌, Bool, true, false, arith, ◌==◌, if◌then◌else◌}

-- `x | 1 << k`
abbrev pub set_bit : ℕ → ℕ → ℕ
set_bit k x = if x / 2 ^ k % 2 == 0 then x + 2 ^ k else x

-- The bits are DSTC_EVENT_FLAG and USER_DATA_PUB_FLAG.
unfoldable pub event_user_data : ℕ → Bool → ℕ
event_user_data index is_pub = set_bit 31 (if is_pub then set_bit 15 index else index)

-- `x & USER_DATA_INDEX_MASK & ~DSTC_EVENT_FLAG`: the fifteen low bits.
unfoldable pub user_data_index : ℕ → ℕ
user_data_index user_data = user_data % 2 ^ 15

unfoldable pub is_pub : ℕ → Bool
is_pub user_data = user_data / 2 ^ 15 % 2 == 1

-- `x & DSTC_EVENT_FLAG`, by which a program with its own epoll loop tells DSTC's events from others.
unfoldable pub is_dstc_event : ℕ → Bool
is_dstc_event user_data = user_data / 2 ^ 31 % 2 == 1

-- An index below 2^15 comes back from the user data of its event, with the kind of its connection;
-- the user data fits 32 bits and marks the event as one of DSTC.
pub user_data_index-event_user_data :
    (index : ℕ) (b : Bool)
    → index < 2 ^ 15
    → (user_data_index (event_user_data index b) ≡ index)
      × (is_pub (event_user_data index b) ≡ b)
      × (is_dstc_event (event_user_data index b) ≡ true)
      × (event_user_data index b < 2 ^ 32)
unfolding event_user_data user_data_index is_pub is_dstc_event
user_data_index-event_user_data index true h = ground arith
user_data_index-event_user_data index false h = ground arith
