-- ===== src/Examples/Threads/Server.antt =====
-- The functions of examples/thread_stress/thread_stress_server.c on the calls of all threads: what the
-- check of each of them accepts.
use dstc.Base.{
  ℕ, zero, suc, ◌+◌, ◌<◌, ◌≡◌, refl, sym, ap, ◌∙◌, arith, List, [], ◌∷◌, length, ◌==◌, ==_refl,
  Bool-cases, inl, inr, done,
}
use dstc.Timeout.{minus_one}
use dstc.Examples.Stress.{int_max, next_int, check_value}
use dstc.Examples.Stress.Order.{in_a_row}
use dstc.Examples.Threads.{Thread, update, server_value, server_values}
use dstc.Examples.Threads.Turns.{values_of, length-in_a_row}

-- `last_value` after so many numbers from 0 on.
abbrev pub last_of : ℕ → ℕ
last_of zero = minus_one
last_of (suc n) = n

last_of-next : (n : ℕ) → n ≡ last_of (n + 1)
last_of-next n = let e : suc n ≡ n + 1 = omega arith in ap last_of e

check_value-next : (last n : ℕ) → n < int_max → last ≡ last_of n → check_value last n ≡ done n
unfolding check_value next_int
check_value-next last zero h e = ground arith
check_value-next last (suc n) h e = ground arith

abbrev head_or : ℕ → List ℕ → ℕ
head_or d [] = d
head_or d (x ∷ xs) = x

abbrev tail_of : List ℕ → List ℕ
tail_of [] = []
tail_of (x ∷ xs) = xs

-- The number that a thread has next in its row is the one after those that were taken.
next_in_row :
    (a n v : ℕ) (vs : List ℕ)
    → v ∷ vs ≡ in_a_row a n
    → (m : ℕ) × (v ≡ a) × (n ≡ m + 1) × (vs ≡ in_a_row (a + 1) m)
next_in_row a zero v vs e = cc
next_in_row a (suc m) v vs e = (m, ap (head_or 0) e, omega arith, ap tail_of e)

-- The numbers of the threads, in any order of their turns, pass the checks of the four functions if
-- those of each thread are in a row from where its function stands.
pub server_values-in_a_row :
    (threads : ℕ → Thread) (calls : List (ℕ × ℕ)) (a n : ℕ → ℕ)
    → ((i : ℕ) → (threads i).last_value ≡ last_of (a i))
    → ((i : ℕ) → values_of i calls ≡ in_a_row (a i) (n i))
    → ((i : ℕ) → a i + n i < int_max)
    → (threads' : ℕ → Thread) × (server_values threads calls ≡ done threads')
      × ((i : ℕ) → (threads' i).last_value ≡ last_of (a i + n i))
unfolding server_values server_value
server_values-in_a_row threads [] a n at rows fit = (
  threads,
  refl,
  λ i.
      let none_left : a i ≡ a i + n i =
        omega (arith, ap length (rows i), length-in_a_row (a i) (n i)) in
      at i ∙ ap last_of none_left,
)
server_values-in_a_row threads ((ind, v) ∷ calls) a n at rows fit =
    let (m, first, size, rest) =
      next_in_row (a ind) (n ind) v (values_of ind calls) (rw (==_refl ind) at (rows ind)) in
    let passed =
      check_value-next (threads ind).last_value v (omega (arith, fit ind))
        (at ind ∙ ap last_of (sym first)) in
    let t : Thread = record (threads ind) { last_value = v } in
    let (threads', ended, at') =
      server_values-in_a_row (update threads ind t) calls (update a ind (a ind + 1))
        (update n ind m)
        (λ i. elim (Bool-cases (ind == i)) [
          | inl same ↦ rw same (first ∙ last_of-next (a ind))
          | inr other ↦ rw other (at i)
        ])
        (λ i. elim (Bool-cases (ind == i)) [
          | inl same ↦
              let e : ind ≡ i = ground arith in
              rw same (ap (λ (j : ℕ). values_of j calls) (sym e) ∙ rest)
          | inr other ↦ rw other (rw other at (rows i))
        ])
        (λ i. ground (arith, fit i, fit ind)) in
    (
      threads',
      rw (passed, ended),
      λ i.
          let whole : update a ind (a ind + 1) i + update n ind m i ≡ a i + n i = ground arith in
          at' i ∙ ap last_of whole,
    )
