-- ===== src/Callbacks/Slots.antt =====
-- The callback table as a multiset of pairs of a reference and a function: how often each occurs,
-- and what the three searches find.
use dstc.Base.{
  ℕ, zero, suc, ◌+◌, ◌≤◌, ◌<◌, ◌≡◌, ◌≢◌, refl, ◌&&◌, List, none, some, arith, length, get_or, set,
  get_or-set, get_or-set_ne, ◌==◌, if◌then◌else◌, ◌⊎◌, inl, inr, Bool-cases,
}
use dstc.Context.{LocalCallback, no_callback}
use dstc.Callbacks.{free_slot, find_ref, find_func}

-- 1 for a slot that holds the pair, 0 for any other.
abbrev pub hit : LocalCallback → ℕ → ℕ → ℕ
hit slot r c = if slot.callback_ref == r && slot.callback == c then 1 else 0

-- How many of the first `n` slots hold the pair.
unfoldable pub count : List LocalCallback → ℕ → ℕ → ℕ → ℕ
count table r c zero = 0
count table r c (suc n) = hit (get_or table n no_callback) r c + count table r c n

pub count-set_outside :
    (table : List LocalCallback) (j n : ℕ) (v : LocalCallback) (r c : ℕ)
    → n ≤ j
    → count (set table j v) r c n ≡ count table r c n
unfolding count
count-set_outside table j zero v r c h = refl
count-set_outside table j (suc n) v r c h = ground (
  arith,
  get_or-set_ne table j n v no_callback (omega arith),
  count-set_outside table j n v r c (omega arith),
)

-- A write moves the counts by what it takes away and what it puts there.
pub count-set :
    (table : List LocalCallback) (j n : ℕ) (v : LocalCallback) (r c : ℕ)
    → j < n
    → n ≤ length table
    → count (set table j v) r c n + hit (get_or table j no_callback) r c
      ≡ count table r c n + hit v r c
unfolding count
count-set table j zero v r c hj hn = absurd (omega arith)
count-set table j (suc n) v r c hj hn = elim (Bool-cases (j == n)) [
  | inl last ↦
      ground
        (arith, get_or-set table j n v no_callback (omega arith), count-set_outside table j n v r c)
  | inr inner ↦
      ground (arith, get_or-set table j n v no_callback (omega arith), count-set table j n v r c)
]

-- A free slot is inside the table in use, and free, or it is the end.
pub free_slot_lem :
    (table : List LocalCallback) (ind n : ℕ)
    → (ind ≤ free_slot table ind n)
      × ((free_slot table ind n ≡ ind + n)
          ⊎ ((free_slot table ind n < ind + n)
              × ((get_or table (free_slot table ind n) no_callback).callback ≡ 0)))
unfolding free_slot
free_slot_lem table ind zero = ground arith
free_slot_lem table ind (suc n) = ground (arith, free_slot_lem table (ind + 1) n)

pub find_ref_sound :
    (table : List LocalCallback) (r ind n j : ℕ)
    → find_ref table r ind n ≡ some j
    → (j < ind + n) × ((get_or table j no_callback).callback_ref ≡ r)
unfolding find_ref
find_ref_sound table r ind zero j h = cc
find_ref_sound table r ind (suc n) j h = ground (arith, find_ref_sound table r (ind + 1) n j)

pub find_func_sound :
    (table : List LocalCallback) (f ind n j : ℕ)
    → find_func table f ind n ≡ some j
    → (j < ind + n) × ((get_or table j no_callback).callback ≡ f)
unfolding find_func
find_func_sound table f ind zero j h = cc
find_func_sound table f ind (suc n) j h = ground (arith, find_func_sound table f (ind + 1) n j)

-- A search that finds nothing has seen no slot that fits.
pub find_ref-none :
    (table : List LocalCallback) (r ind n i : ℕ)
    → find_ref table r ind n ≡ none
    → ind ≤ i
    → i < ind + n
    → (get_or table i no_callback).callback_ref ≢ r
unfolding find_ref
find_ref-none table r ind zero i h lo hi = absurd (omega arith)
find_ref-none table r ind (suc n) i h lo hi =
    λ e. ground (arith, find_ref-none table r (ind + 1) n i)

pub find_func-none :
    (table : List LocalCallback) (f ind n i : ℕ)
    → find_func table f ind n ≡ none
    → ind ≤ i
    → i < ind + n
    → (get_or table i no_callback).callback ≢ f
unfolding find_func
find_func-none table f ind zero i h lo hi = absurd (omega arith)
find_func-none table f ind (suc n) i h lo hi =
    λ e. ground (arith, find_func-none table f (ind + 1) n i)

pub count-none :
    (table : List LocalCallback) (r c n : ℕ)
    → ((i : ℕ) → i < n → hit (get_or table i no_callback) r c ≡ 0)
    → count table r c n ≡ 0
unfolding count
count-none table r c zero h = refl
count-none table r c (suc n) h =
    ground (arith, h n (omega arith), count-none table r c n (λ i lt. h i (omega arith)))

-- A pair that occurs makes both searches succeed.
pub count-find_ref :
    (table : List LocalCallback) (r c n : ℕ) → find_ref table r 0 n ≡ none → count table r c n ≡ 0
count-find_ref table r c n e =
    count-none table r c n
      (λ i lt. ground (arith, find_ref-none table r 0 n i e (omega arith) (omega arith)))

pub count-find_func :
    (table : List LocalCallback) (r c n : ℕ) → find_func table c 0 n ≡ none → count table r c n ≡ 0
count-find_func table r c n e =
    count-none table r c n
      (λ i lt. ground (arith, find_func-none table c 0 n i e (omega arith) (omega arith)))

-- The count over one slot more.
pub count-suc :
    (table : List LocalCallback) (r c n m : ℕ)
    → m ≡ suc n
    → count table r c m ≡ hit (get_or table n no_callback) r c + count table r c n
unfolding count
count-suc table r c n m e = rw e
