-- ===== src/Examples/Threads/Turns.antt =====
-- What the threads of examples/thread_stress send, in the order of their turns: the numbers of one
-- thread among those of the others.
use dstc.Base.{
  ℕ, zero, suc, ◌+◌, ◌≡◌, refl, ap, ◌∙◌, arith, List, [], ◌∷◌, ◌++◌, length, ◌==◌, if◌then◌else◌,
  Bool-cases, inl, inr,
}
use dstc.Examples.Stress.Order.{in_a_row}

-- The numbers of the thread `ind`, in their order.
abbrev pub values_of : ℕ → List (ℕ × ℕ) → List ℕ
values_of ind [] = []
values_of ind ((i, v) ∷ calls) = if i == ind then v ∷ values_of ind calls else values_of ind calls

pub values_of-append :
    (ind : ℕ) (xs ys : List (ℕ × ℕ))
    → values_of ind (xs ++ ys) ≡ values_of ind xs ++ values_of ind ys
values_of-append ind [] ys = refl
values_of-append ind ((i, v) ∷ xs) ys = elim (Bool-cases (i == ind)) [
  | inl same ↦ rw same (ap (◌∷◌ v) (values_of-append ind xs ys))
  | inr other ↦ rw other (values_of-append ind xs ys)
]

pub length-in_a_row : (a n : ℕ) → length (in_a_row a n) ≡ n
length-in_a_row a zero = refl
length-in_a_row a (suc n) = omega (arith, length-in_a_row (a + 1) n)

in_a_row-snoc_from : (a n : ℕ) → in_a_row a n ++ (a + n) ∷ [] ≡ in_a_row a (suc n)
in_a_row-snoc_from a zero = let e : a + 0 ≡ a = omega arith in ap (λ (k : ℕ). k ∷ []) e
in_a_row-snoc_from a (suc n) =
    let e : a + suc n ≡ a + 1 + n = omega arith in
    ap (◌∷◌ a) (ap (λ (k : ℕ). in_a_row (a + 1) n ++ k ∷ []) e ∙ in_a_row-snoc_from (a + 1) n)

pub in_a_row-snoc : (n : ℕ) → in_a_row 0 n ++ n ∷ [] ≡ in_a_row 0 (n + 1)
in_a_row-snoc n =
    let e : n ≡ 0 + n = omega arith in
    let e' : suc n ≡ n + 1 = omega arith in
    ap (λ (k : ℕ). in_a_row 0 n ++ k ∷ []) e ∙ in_a_row-snoc_from 0 n ∙ ap (in_a_row 0) e'

abbrev tail_of : List ℕ → List ℕ
tail_of [] = []
tail_of (x ∷ xs) = xs

-- Numbers in a row are cut into two such rows.
pub in_a_row-cut :
    (a n : ℕ) (xs ys : List ℕ)
    → xs ++ ys ≡ in_a_row a n
    → (xs ≡ in_a_row a (length xs)) × (length xs + length ys ≡ n)
in_a_row-cut a n [] ys e = (refl, omega (arith, ap length e, length-in_a_row a n))
in_a_row-cut a zero (x ∷ xs) ys e = cc
in_a_row-cut a (suc n) (x ∷ xs) ys e =
    let (row, size) = in_a_row-cut (a + 1) n xs ys (ap tail_of e) in
    let first : x ≡ a = cc in
    (ap (◌∷◌ x) row ∙ ap (λ (k : ℕ). k ∷ in_a_row (a + 1) (length xs)) first, omega (arith, size))
