-- ===== src/Examples/Many.antt =====
-- examples/many_arguments: a client that passes sixteen numbers, and a server that checks each of them. An
-- `int` is its bit pattern; what is printed is left out.
pub mod Check
use dstc.Base.{
  ℕ, ◌+◌, List, [], ◌∷◌, ◌==◌, if◌then◌else◌, map, replicate, take, Outcome, fault, exit, ◌>>=◌,
}
use dstc.Wire.{le_bytes, le_value}
use dstc.Rmc.{Rmc, System}
use dstc.Context.{Context}
use dstc.Args.{Arg, fixed, value_argument, Param, fixed_param, client_function, server_function}
use dstc.Examples.Stress.{wait_for_function}

-- "many_arguments"
abbrev pub many_name : List ℕ
many_name =
    b'm' ∷ b'a' ∷ b'n' ∷ b'y' ∷ b'_' ∷ b'a' ∷ b'r' ∷ b'g' ∷ b'u' ∷ b'm' ∷ b'e' ∷ b'n' ∷ b't' ∷ b's'
    ∷ []

-- `int,, ... int,`
abbrev pub many_parameters : List Param
many_parameters = replicate 16 (fixed_param 4)

abbrev pub int_arguments : List ℕ → List Arg
int_arguments = map λ v. value_argument 4 4 (le_bytes 4 v) []

-- The tests from `if (a1 != 1)` to `if (a16 != 16)`, from the argument with this number on.
unfoldable pub check_arguments : {C : Type 0} → ℕ → List Arg → C → Outcome C
check_arguments k [] c = exit 0
check_arguments k (fixed size memory ∷ args) c =
    let rest = check_arguments (k + 1) args c in
    if le_value (take size memory) == k then rest else exit 255
check_arguments k (arg ∷ args) c = fault

unfoldable pub many_arguments : {C : Type 0} → List Arg → C → Outcome C
many_arguments args c = check_arguments 1 args c

-- The function that DSTC_SERVER(many_arguments, ...) makes.
unfoldable pub dstc_server_many_arguments : {C : Type 0} → List ℕ → C → Outcome C
dstc_server_many_arguments payload c = server_function many_parameters many_arguments payload c

module _ {Pub Sub : Type 0} (rmc : Rmc Pub Sub) (sys : System) where
  -- `dstc_many_arguments(a1, ..., a16)`
  unfoldable pub dstc_many_arguments : Context Pub Sub → List ℕ → Outcome (ℕ × Context Pub Sub)
  dstc_many_arguments ctx vals = client_function rmc sys ctx many_name (int_arguments vals) []

  -- `main` of the client; `func` is the address of `dstc_many_arguments`.
  unfoldable pub many_client :
      {W : Type 0}
      → (Context Pub Sub → W → ℕ → Outcome (ℕ × Context Pub Sub × W))
      → ℕ
      → ℕ
      → Context Pub Sub
      → W
      → Outcome (Context Pub Sub × W)
  many_client process_events fuel func ctx w = do
    (ctx, w) ← wait_for_function rmc sys process_events fuel func ctx w
    let one_to_sixteen = 1 ∷ 2 ∷ 3 ∷ 4 ∷ 5 ∷ 6 ∷ 7 ∷ 8 ∷ 9 ∷ 10 ∷ 11 ∷ 12 ∷ 13 ∷ 14 ∷ 15 ∷ 16 ∷ []
    (_, ctx) ← dstc_many_arguments ctx one_to_sixteen
    (_, ctx, w) ← process_events ctx w 0
    exit 0
