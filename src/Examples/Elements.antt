-- ===== src/Examples/Elements.antt =====
-- examples/callback_dyndata: a server that keeps elements, and a client that adds one, or has all of them
-- sent back to a callback. `printf` is the result of the callback, or left out.
pub mod Add
pub mod Print
pub mod Exchange
use dstc.Base.{
  ℕ, zero, suc, ◌+◌, ◌-◌, ◌*◌, ltb, Bool, true, false, ◌&&◌, not, List, [], ◌∷◌, ◌++◌, Option, none,
  some, ◌==◌, if◌then◌else◌, length, set, take, drop, map, Outcome, done, fault, exit, out_of_fuel,
  ◌>>=◌,
}
use mathlib.Core.List.{flatten}
use dstc.Wire.{u16, u32, le_bytes, le_value}
use dstc.Rmc.{Rmc, System}
use dstc.Context.{Context}
use dstc.Timeout.{minus_one}
use dstc.Symtab.Local.{remote_function_available}
use dstc.Callbacks.{activate_callback}
use dstc.Args.{
  Arg, dynamic, callback, fixed, Param, dynamic_param, callback_param, fixed_param, read_bytes,
  client_function, callback_function,
}
use dstc.Examples.Statics.{Statics}

-- `sizeof(struct name_and_age)`, which is packed, and the room in `elems`
abbrev pub elem_size : ℕ
elem_size = 68

abbrev pub max_elems : ℕ
max_elems = 100

-- "add_name_and_age_element", "get_all_elements" and "do_exit"
abbrev pub add_name : List ℕ
add_name =
    b'a' ∷ b'd' ∷ b'd' ∷ b'_' ∷ b'n' ∷ b'a' ∷ b'm' ∷ b'e' ∷ b'_' ∷ b'a' ∷ b'n' ∷ b'd' ∷ b'_' ∷ b'a'
    ∷ b'g' ∷ b'e' ∷ b'_' ∷ b'e' ∷ b'l' ∷ b'e' ∷ b'm' ∷ b'e' ∷ b'n' ∷ b't' ∷ []

abbrev pub get_name : List ℕ
get_name =
    b'g' ∷ b'e' ∷ b't' ∷ b'_' ∷ b'a' ∷ b'l' ∷ b'l' ∷ b'_' ∷ b'e' ∷ b'l' ∷ b'e' ∷ b'm' ∷ b'e' ∷ b'n'
    ∷ b't' ∷ b's' ∷ []

abbrev pub exit_name : List ℕ
exit_name = b'd' ∷ b'o' ∷ b'_' ∷ b'e' ∷ b'x' ∷ b'i' ∷ b't' ∷ []

-- `elems` and `elem_index` of the server.
pub record Elements : Type 0 where
  pub elems : List (List ℕ)
  pub elem_index : ℕ

-- `elems[elem_index++] = new_elem;`: the index is not compared with the size of the array.
unfoldable pub add_element : Elements → List ℕ → Outcome Elements
add_element s new_elem =
    if ltb s.elem_index max_elems
    then done (record { elems = set s.elems s.elem_index new_elem; elem_index = s.elem_index + 1 })
    else fault

unfoldable pub add_elements : Elements → List (List ℕ) → Outcome Elements
add_elements s [] = done s
add_elements s (e ∷ es) = add_element s e >>= λ s. add_elements s es

unfoldable pub add_name_and_age_element :
    {C : Type 0} → Statics C Elements → List Arg → C → Outcome C
add_name_and_age_element statics (fixed size memory ∷ []) c =
    add_element (statics.read c) (take size memory) >>= λ s. done (statics.write s c)
add_name_and_age_element statics args c = fault

unfoldable pub do_exit : {C : Type 0} → List Arg → C → Outcome C
do_exit (fixed size memory ∷ []) c = exit (le_value (take size memory))
do_exit args c = fault

-- What the server passes to the callback.
abbrev pub all_elements : Elements → List Arg
all_elements s =
    dynamic (u16 (elem_size * s.elem_index)) (flatten s.elems)
    ∷ fixed 4 (le_bytes 4 s.elem_index)
    ∷ []

-- The parameters of the client's callback.
abbrev pub callback_parameters : List Param
callback_parameters = dynamic_param ∷ fixed_param 4 ∷ []

-- `while(elem_count--) printf(...)`: the elements in the order in which they are printed.
unfoldable pub print_elements : ℕ → List ℕ → Outcome (List (List ℕ))
print_elements zero memory = done []
print_elements (suc n) memory = do
  elem ← read_bytes elem_size (drop (elem_size * n) memory)
  elems ← print_elements n memory
  done (elem ∷ elems)

-- `print` is what becomes of the lines, and of the process behind them.
unfoldable pub get_all_elements_callback :
    {C : Type 0} → (List (List ℕ) → C → Outcome C) → List Arg → C → Outcome C
get_all_elements_callback print (dynamic len memory ∷ fixed size count ∷ []) c =
    print_elements (le_value (take size count)) memory >>= λ elems. print elems c
get_all_elements_callback print args c = fault

-- What getopt finds on the command line, and what `main` keeps of it.
pub data Flag : Type 0 where
  add : List ℕ → Flag
  print : Flag
  exit_server : Flag
  unknown : Flag

pub record Chosen : Type 0 where
  pub name : List ℕ
  pub age : ℕ
  pub print_flag : Bool
  pub exit_server : Bool

-- `strchr(name, ':')`: the text in front of the first colon and the one behind it.
unfoldable pub split_colon : List ℕ → Option (List ℕ × List ℕ)
split_colon [] = none
split_colon (c ∷ cs) =
    if c == b':'
    then some ([], cs)
    else elim (split_colon cs) [ none ↦ none | some (before, after) ↦ some (c ∷ before, after) ]

-- `strcpy(name, optarg)` into 128 bytes, without a bound.
unfoldable pub choose : System → Chosen → Flag → Outcome Chosen
choose sys c exit_server = done (record c { exit_server = true })
choose sys c print = done (record c { print_flag = true })
choose sys c (add optarg) = if ltb 127 (length optarg) then fault else elim (split_colon optarg) [
  | none ↦ exit 1
  | some (name, age) ↦ done (record c { name = name; age = sys.atoi age })
]
choose sys c unknown = exit 1

unfoldable pub choose_all : System → Chosen → List Flag → Outcome Chosen
choose_all sys c [] = done c
choose_all sys c (flag ∷ flags) = choose sys c flag >>= λ c. choose_all sys c flags

-- `struct name_and_age elem`, with `strcpy(elem.name, name)` into its 64 bytes; what lay there before is
-- `stale`.
unfoldable pub make_element : List ℕ → ℕ → List ℕ → Outcome (List ℕ)
make_element name age stale =
    if ltb 63 (length name)
    then fault
    else done (name ++ 0 ∷ (take (63 - length name) stale ++ le_bytes 4 age))

module _ {Pub Sub : Type 0} (rmc : Rmc Pub Sub) (sys : System) where
  -- The server's function; nothing is made of the result of `dstc_remote_callback`.
  unfoldable pub get_all_elements :
      Statics (Context Pub Sub) Elements
      → List ℕ
      → List Arg
      → Context Pub Sub
      → Outcome (Context Pub Sub)
  get_all_elements statics stale (callback remote_callback ∷ []) ctx =
      callback_function rmc sys ctx remote_callback (all_elements (statics.read ctx)) stale >>= λ r.
      done r.1
  get_all_elements statics stale args ctx = fault

  -- `dstc_get_all_elements(DSTC_CLIENT_CALLBACK_ARG(get_all_elements_callback))`, with the address of
  -- the callback and that of the function that DSTC_CLIENT_CALLBACK makes for it.
  unfoldable pub ask_elements : Context Pub Sub → ℕ → ℕ → Outcome (ℕ × Context Pub Sub)
  ask_elements ctx func dispatch = do
    (ref, ctx) ← activate_callback ctx func dispatch
    client_function rmc sys ctx get_name (callback ref ∷ []) []

  module _ {W : Type 0}
      (process_events : Context Pub Sub → W → ℕ → Outcome (ℕ × Context Pub Sub × W)) where
    -- `dstc_remote_function_available(add) || ...`, the second only if the first is there.
    unfoldable pub both_available : Context Pub Sub → ℕ → ℕ → Outcome (Bool × Context Pub Sub)
    both_available ctx add_func get_func = do
      (there, ctx) ← remote_function_available rmc sys ctx add_func
      if there then remote_function_available rmc sys ctx get_func else done (false, ctx)

    unfoldable pub wait_round :
        (Context Pub Sub → W → Outcome (Context Pub Sub × W))
        → W
        → Bool × Context Pub Sub
        → Outcome (Context Pub Sub × W)
    wait_round again w (true, ctx) = done (ctx, w)
    wait_round again w (false, ctx) = process_events ctx w minus_one >>= (λ r. again r.1 r.2)

    unfoldable pub wait_for_both : ℕ → ℕ → ℕ → Context Pub Sub → W → Outcome (Context Pub Sub × W)
    wait_for_both zero add_func get_func ctx w = out_of_fuel
    wait_for_both (suc fuel) add_func get_func ctx w =
        both_available ctx add_func get_func >>= wait_round (wait_for_both fuel add_func get_func) w

    -- `while(1) dstc_process_events(-1);`
    unfoldable pub process_forever : ℕ → Context Pub Sub → W → Outcome (Context Pub Sub × W)
    process_forever zero ctx w = out_of_fuel
    process_forever (suc fuel) ctx w =
        process_events ctx w minus_one >>= λ r. process_forever fuel r.1 r.2

    unfoldable pub perform_chosen :
        ℕ → ℕ → ℕ → List ℕ → Chosen → Context Pub Sub → W → Outcome (Context Pub Sub × W)
    perform_chosen fuel func dispatch stale c ctx w =
        if c.exit_server
        then (do
          (_, ctx) ← client_function rmc sys ctx exit_name (fixed 4 (le_bytes 4 0) ∷ []) []
          (_, ctx, w) ← process_events ctx w 0
          exit 0)
        else if not (length c.name == 0)
        then (do
          elem ← make_element c.name c.age stale
          (_, ctx) ← client_function rmc sys ctx add_name (fixed elem_size elem ∷ []) []
          (_, ctx, w) ← process_events ctx w 0
          exit 0)
        else if c.print_flag
        then (do (_, ctx) ← ask_elements ctx func dispatch; process_forever fuel ctx w)
        else exit 255

    unfoldable pub elements_client :
        ℕ → ℕ → ℕ → ℕ → ℕ → List ℕ → List Flag → Context Pub Sub → W → Outcome (Context Pub Sub × W)
    elements_client fuel add_func get_func func dispatch stale flags ctx w = do
      let none_yet : Chosen = record { name = []; age = 0; print_flag = false; exit_server = false }
      c ← choose_all sys none_yet flags
      if length c.name == 0 && not c.print_flag && not c.exit_server
          then exit 1
          else wait_for_both fuel add_func get_func ctx w
            >>= (λ r. perform_chosen fuel func dispatch stale c r.0 r.1)
