-- ===== src/ForEach/Laws.antt =====
-- The iteration of dstc.h against what it is for: one call for each pair of a type and a size.
use dstc.Base.{
  ℕ, zero, suc, ◌+◌, ◌-◌, ◌*◌, ◌≤◌, ◌<◌, ◌≡◌, refl, ap, ◌∙◌, subst, arith, Bool, true, false, ◌&&◌,
  List, [], ◌∷◌, ◌++◌, map, length, Option, none, some, ◌==◌, Bool-cases, inl, inr,
}
use dstc.ForEach.{
  Macro, fe, le, err, MacroArg, table, nth, Call, calls, comma_calls, message, fe_table, le_table,
  get_nth_arg, va_args, put, expand, option_map, apply, for_each, for_each_elem,
}

same : Macro → Option Macro → Bool
same (fe k) (some (fe n)) = k == n
same (le k) (some (le n)) = k == n
same err (some err) = true
same _ _ = false

same_sound : (m : Macro) (found : Option Macro) → same m found ≡ true → found ≡ some m
unfolding same
same_sound (fe k) none h = cc
same_sound (fe k) (some (fe n)) h = ground arith
same_sound (fe k) (some (le n)) h = cc
same_sound (fe k) (some err) h = cc
same_sound (le k) none h = cc
same_sound (le k) (some (fe n)) h = cc
same_sound (le k) (some (le n)) h = ground arith
same_sound (le k) (some err) h = cc
same_sound err none h = cc
same_sound err (some (fe n)) h = cc
same_sound err (some (le n)) h = cc
same_sound err (some err) h = refl

both : (a b : Bool) → (a && b) ≡ true → (a ≡ true) × (b ≡ true)
both true b h = (refl, h)
both false b h = cc

every : (ℕ → Bool) → ℕ → Bool
every f zero = true
every f (suc n) = f n && every f n

every_sound : (f : ℕ → Bool) (n k : ℕ) → every f n ≡ true → k < n → f k ≡ true
unfolding every
every_sound f zero k h lt = absurd (omega arith)
every_sound f (suc n) k h lt =
    let (last, rest) = both (f n) (every f n) h in
    elim (Bool-cases (k == n)) [
      | inl here ↦ subst (λ (j : ℕ). f j ≡ true) (ground arith) last
      | inr below ↦ every_sound f n k rest (ground arith)
    ]

-- The macro that a table has for so many pairs, and for a number of arguments that is odd.
fe_at : (k : ℕ) → k < 16 → nth fe_table (32 - 2 * suc k) ≡ some (fe (suc k))
unfolding fe_table every same
fe_at k h =
    same_sound (fe (suc k)) _
      (every_sound (λ j. same (fe (suc j)) (nth fe_table (32 - 2 * suc j))) 16 k refl h)

le_at : (k : ℕ) → k < 16 → nth le_table (32 - 2 * suc k) ≡ some (le (suc k))
unfolding le_table every same
le_at k h =
    same_sound (le (suc k)) _
      (every_sound (λ j. same (le (suc j)) (nth le_table (32 - 2 * suc j))) 16 k refl h)

err_at :
    (k : ℕ)
    → k < 15
    → (nth fe_table (29 - 2 * k) ≡ some err) × (nth le_table (29 - 2 * k) ≡ some err)
unfolding fe_table le_table every same
err_at k h = (
  same_sound err _ (every_sound (λ j. same err (nth fe_table (29 - 2 * j))) 15 k refl h),
  same_sound err _ (every_sound (λ j. same err (nth le_table (29 - 2 * j))) 15 k refl h),
)

module _ {A : Type 0} where
  nth-append : (xs ys : List A) (i : ℕ) → length xs ≤ i → nth (xs ++ ys) i ≡ nth ys (i - length xs)
  nth-append [] ys i h = ap (nth ys) (omega arith)
  nth-append (x ∷ xs) ys zero h = absurd (omega arith)
  nth-append (x ∷ xs) ys (suc i) h = nth-append xs ys i (omega arith) ∙ ap (nth ys) (omega arith)

module _ {T : Type 0} where
  -- The arguments of a macro for so many parameters.
  abbrev pub flat : List (T × T) → List T
  flat [] = []
  flat ((type, size) ∷ ps) = type ∷ size ∷ flat ps

  -- The parameters numbered down to 1.
  abbrev pub numbered : List (T × T) → List (Call T)
  numbered [] = []
  numbered ((type, size) ∷ ps) =
      record { arg_id = suc (length ps); type = type; size = size } ∷ numbered ps

  length-flat : (ps : List (T × T)) → length (flat ps) ≡ 2 * length ps
  length-flat [] = refl
  length-flat (p ∷ ps) = omega (arith, length-flat ps)

  expand-flat : (ps : List (T × T)) → expand (length ps) (flat ps) ≡ some (numbered ps)
  unfolding expand
  expand-flat [] = refl
  expand-flat (p ∷ []) = refl
  expand-flat (p ∷ q ∷ ps) = ap (put (suc (suc (length ps))) p.0 p.1) (expand-flat (q ∷ ps))

  tables : List Macro → List (MacroArg T)
  tables macros = map table macros

  nth-table :
      (macros : List Macro) (i : ℕ) {m : Macro}
      → nth macros i ≡ some m
      → nth (tables macros) i ≡ some (table m)
  unfolding tables
  nth-table [] i h = cc
  nth-table (m' ∷ macros) zero h = ground arith
  nth-table (m' ∷ macros) (suc i) h = nth-table macros i h

  length-va_args : (x : T) (xs : List T) → length (va_args (x ∷ xs)) ≡ suc (length xs)
  unfolding va_args
  length-va_args x [] = refl
  length-va_args x (y ∷ xs) = ap suc (length-va_args y xs)

  -- From one argument to 32, `_GET_NTH_ARG` gives an entry of the table.
  get_nth_arg-va_args :
      (macros : List Macro) (x : T) (xs : List T) (i : ℕ) {m : Macro}
      → i + suc (length xs) ≡ 32
      → nth macros i ≡ some m
      → get_nth_arg (va_args (x ∷ xs) ++ tables macros) ≡ some (table m)
  unfolding get_nth_arg
  get_nth_arg-va_args macros x xs i size there =
      let n = length-va_args x xs in
      nth-append (va_args (x ∷ xs)) (tables macros) 32 (omega (arith, n))
      ∙ ap (nth (tables macros)) (omega (arith, n))
      ∙ nth-table macros i there

  -- For up to 16 parameters, each a type and a size, both iterations of dstc.h find the right macro
  -- of their table: they make one call for each parameter, in order, numbered down to 1, with
  -- commas between them in the variant that lists elements.
  pub for_each-flat :
      (ps : List (T × T))
      → length ps ≤ 16
      → (for_each (flat ps) ≡ some (calls (numbered ps)))
        × (for_each_elem (flat ps) ≡ some (comma_calls (numbered ps)))
  unfolding for_each for_each_elem apply tables
  for_each-flat [] h = unfold get_nth_arg va_args fe_table le_table expand in (refl, refl)
  for_each-flat ((type, size) ∷ ps) h =
      let k : length ps < 16 = omega arith in
      let total : 32 - 2 * suc (length ps) + suc (length (size ∷ flat ps)) ≡ 32 =
        omega (arith, length-flat ps) in
      let args = type ∷ size ∷ flat ps in
      (
        ap (λ m. apply m args)
              (get_nth_arg-va_args fe_table type (size ∷ flat ps) (32 - 2 * suc (length ps)) total
                (fe_at (length ps) k))
            ∙ ap (option_map calls) (expand-flat ((type, size) ∷ ps)),
        ap (λ m. apply m args)
              (get_nth_arg-va_args le_table type (size ∷ flat ps) (32 - 2 * suc (length ps)) total
                (le_at (length ps) k))
            ∙ ap (option_map comma_calls) (expand-flat ((type, size) ∷ ps)),
      )

  -- An odd number of arguments, from 3 to 31, gives the string that tells the error.
  for_each-odd :
      (x : T) (xs : List T) (k : ℕ)
      → k < 15
      → suc (length xs) ≡ 2 * k + 3
      → (for_each (x ∷ xs) ≡ some message) × (for_each_elem (x ∷ xs) ≡ some message)
  unfolding for_each for_each_elem apply tables
  for_each-odd x xs k h odd =
      let (fe_err, le_err) = err_at k h in
      (
        ap (λ m. apply m (x ∷ xs))
            (get_nth_arg-va_args fe_table x xs (29 - 2 * k) (omega arith) fe_err),
        ap (λ m. apply m (x ∷ xs))
            (get_nth_arg-va_args le_table x xs (29 - 2 * k) (omega arith) le_err),
      )
