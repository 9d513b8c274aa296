-- ===== src/ForEach.antt =====
-- The iteration over the arguments of a macro in dstc.h: FOR_EACH_VARIADIC_MACRO and
-- FOR_EACH_VARIADIC_MACRO_ELEM, which pick one of a table of macros by the number of the arguments. A
-- macro is modelled by what the preprocessor makes of its arguments.
pub mod Laws
use dstc.Base.{ℕ, zero, suc, map, List, [], ◌∷◌, ◌++◌, Option, none, some}

-- `_FE0` to `_FE32` and `_LE0` to `_LE32` take so many pairs of a type and a size; `_ERR` is a string
-- that tells the error, and no code.
pub data Macro : Type 0 where
  fe : ℕ → Macro
  le : ℕ → Macro
  err : Macro

-- An argument of `_GET_NTH_ARG`: one of the caller, a macro of the table, or an empty one, as which an
-- empty `__VA_ARGS__` counts.
pub data MacroArg (T : Type 0) : Type 0 where
  given : T → MacroArg T
  table : Macro → MacroArg T
  empty : MacroArg T

abbrev pub nth {ℓ} : {A : Type ℓ} → List A → ℕ → Option A
nth [] i = none
nth (x ∷ xs) zero = some x
nth (x ∷ xs) (suc i) = nth xs i

-- One `_call(arg_id, type, size)`.
pub record Call (T : Type 0) : Type 0 where
  pub arg_id : ℕ
  pub type : T
  pub size : T

-- What an expansion gives: the calls in order, each followed by a comma or not, or the string.
pub data Expansion (T : Type 0) : Type 0 where
  calls : List (Call T) → Expansion T
  comma_calls : List (Call T) → Expansion T
  message : Expansion T

-- The arguments from the 33rd on in `_FE32, _ERR, …, _FE2, _FE0`.
unfoldable pub fe_table : List Macro
fe_table =
    fe 16
    ∷ err
    ∷ fe 15
    ∷ err
    ∷ fe 14
    ∷ err
    ∷ fe 13
    ∷ err
    ∷ fe 12
    ∷ err
    ∷ fe 11
    ∷ err
    ∷ fe 10
    ∷ err
    ∷ fe 9
    ∷ err
    ∷ fe 8
    ∷ err
    ∷ fe 7
    ∷ err
    ∷ fe 6
    ∷ err
    ∷ fe 5
    ∷ err
    ∷ fe 4
    ∷ err
    ∷ fe 3
    ∷ err
    ∷ fe 2
    ∷ err
    ∷ fe 1
    ∷ fe 0
    ∷ []

unfoldable pub le_table : List Macro
le_table =
    le 16
    ∷ err
    ∷ le 15
    ∷ err
    ∷ le 14
    ∷ err
    ∷ le 13
    ∷ err
    ∷ le 12
    ∷ err
    ∷ le 11
    ∷ err
    ∷ le 10
    ∷ err
    ∷ le 9
    ∷ err
    ∷ le 8
    ∷ err
    ∷ le 7
    ∷ err
    ∷ le 6
    ∷ err
    ∷ le 5
    ∷ err
    ∷ le 4
    ∷ err
    ∷ le 3
    ∷ err
    ∷ le 2
    ∷ err
    ∷ le 1
    ∷ le 0
    ∷ []

abbrev pub option_map {ℓ κ} : {A : Type ℓ} {B : Type κ} → (A → B) → Option A → Option B
option_map f none = none
option_map f (some a) = some (f a)

module _ {T : Type 0} where
  unfoldable pub get_nth_arg : List (MacroArg T) → Option (MacroArg T)
  get_nth_arg args = nth args 32

  -- `__VA_ARGS__, ` in front of the table
  unfoldable pub va_args : List T → List (MacroArg T)
  va_args [] = empty ∷ []
  va_args (x ∷ xs) = given x ∷ map given xs

  abbrev pub put : ℕ → T → T → Option (List (Call T)) → Option (List (Call T))
  put n type size none = none
  put n type size (some rest) = some (record { arg_id = n; type = type; size = size } ∷ rest)

  -- `_FE` and `_LE` of so many pairs; `none` where the preprocessor refuses the number of arguments.
  -- That of one pair drops what is left.
  unfoldable pub expand : ℕ → List T → Option (List (Call T))
  expand zero [] = some []
  expand zero (x ∷ xs) = none
  expand (suc n) [] = none
  expand (suc n) (type ∷ []) = none
  expand (suc zero) (type ∷ size ∷ rest) = put 1 type size (some [])
  expand (suc (suc n)) (type ∷ size ∷ rest) = put (suc (suc n)) type size (expand (suc n) rest)

  -- `_GET_NTH_ARG(…)(_call, ##__VA_ARGS__)`; an argument of the caller is no macro.
  unfoldable pub apply : Option (MacroArg T) → List T → Option (Expansion T)
  apply (some (table (fe n))) args = option_map calls (expand n args)
  apply (some (table (le n))) args = option_map comma_calls (expand n args)
  apply (some (table err)) args = some message
  apply _ args = none

  -- FOR_EACH_VARIADIC_MACRO
  unfoldable pub for_each : List T → Option (Expansion T)
  for_each args = apply (get_nth_arg (va_args args ++ map table fe_table)) args

  -- FOR_EACH_VARIADIC_MACRO_ELEM
  unfoldable pub for_each_elem : List T → Option (Expansion T)
  for_each_elem args = apply (get_nth_arg (va_args args ++ map table le_table)) args
