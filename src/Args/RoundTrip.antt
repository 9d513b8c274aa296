-- ===== src/Args/RoundTrip.antt =====
-- The macros of dstc.h on arguments: reading back what was written, and the buffer in between.
use dstc.Base.{
  ℕ, suc, ◌+◌, ◌-◌, ◌*◌, ◌^◌, ◌≤◌, ◌<◌, ◌≡◌, refl, sym, ap, ◌∙◌, List, [], ◌∷◌, ◌++◌, arith, length,
  take, length-append, length-take, take-append, take-all, drop-append, append_assoc, le→ltb, done,
  map,
}
use dstc.Wire.{u32, le_bytes}
use dstc.Wire.Codec.{length-le_bytes, le_value-le_bytes}
use dstc.Args.{
  Arg, dynamic, callback, fixed, param, read_bytes, serialize_argument, serialize,
  deserialize_argument, deserialize, size_argument, size_arguments, fill_buffer,
}

-- An argument that C can read: its memory holds the bytes that it names, and its numbers fit.
abbrev pub IsReadable : Arg → Type 0
IsReadable (dynamic len memory) = (len ≤ length memory) × (len < 2 ^ 16)
IsReadable (callback ref) = ref < 2 ^ 64
IsReadable (fixed size memory) = size ≤ length memory

abbrev pub AllReadable : List Arg → Type 0
AllReadable [] = Unit {0}
AllReadable (arg ∷ args) = IsReadable arg × AllReadable args

-- What a function can see of an argument: the bytes that it names.
unfoldable pub view : Arg → Arg
view (dynamic len memory) = dynamic len (take len memory)
view (callback ref) = callback ref
view (fixed size memory) = fixed size (take size memory)

-- The bytes of an argument on the wire.
unfoldable pub wire : Arg → List ℕ
wire (dynamic len memory) = le_bytes 2 len ++ take len memory
wire (callback ref) = le_bytes 8 ref
wire (fixed size memory) = take size memory

unfoldable pub wires : List Arg → List ℕ
wires [] = []
wires (arg ∷ args) = wire arg ++ wires args

-- How many of the arguments are dynamic.
unfoldable pub dynamics : List Arg → ℕ
dynamics [] = 0
dynamics (dynamic len memory ∷ args) = suc (dynamics args)
dynamics (callback ref ∷ args) = dynamics args
dynamics (fixed size memory ∷ args) = dynamics args

read_bytes_lem :
    (n : ℕ) (memory : List ℕ) → n ≤ length memory → read_bytes n memory ≡ done (take n memory)
unfolding read_bytes
read_bytes_lem n memory h = ground arith

read_bytes-append :
    (bytes rest : List ℕ) (n : ℕ) → n ≡ length bytes → read_bytes n (bytes ++ rest) ≡ done bytes
read_bytes-append bytes rest n e =
    read_bytes_lem n (bytes ++ rest) (omega (arith, length-append bytes rest))
    ∙ ap done (take-append bytes rest n e)

serialize_argument_lem : (arg : Arg) → IsReadable arg → serialize_argument arg ≡ done (wire arg)
unfolding serialize_argument wire
serialize_argument_lem (dynamic len memory) h = rw (read_bytes_lem len memory h.0)
serialize_argument_lem (callback ref) h = refl
serialize_argument_lem (fixed size memory) h = read_bytes_lem size memory h

pub serialize_lem : (args : List Arg) → AllReadable args → serialize args ≡ done (wires args)
unfolding serialize wires
serialize_lem [] h = refl
serialize_lem (arg ∷ args) h = rw (serialize_argument_lem arg h.0, serialize_lem args h.1)

deserialize_argument-wire :
    (arg : Arg) (rest : List ℕ)
    → IsReadable arg
    → (arg' : Arg) × (deserialize_argument (param arg) (wire arg ++ rest) ≡ done (arg', rest))
      × (view arg' ≡ view arg)
unfolding deserialize_argument wire view param
deserialize_argument-wire (dynamic len memory) rest h =
    let text = take len memory in
    let size : len ≡ length text = omega (arith, length-take len memory) in
    let prefix = le_bytes 2 len in
    let prefix_size = length-le_bytes 2 len in
    (
      dynamic len (text ++ rest),
      rw (
        append_assoc prefix text rest,
        read_bytes-append prefix (text ++ rest) 2 (sym prefix_size),
        drop-append prefix (text ++ rest) 2 (sym prefix_size),
        le_value-le_bytes 2 len h.1,
        read_bytes-append text rest len size,
        drop-append text rest len size,
      ),
      ap (dynamic len) (take-append text rest len size),
    )
deserialize_argument-wire (callback ref) rest h =
    let size = length-le_bytes 8 ref in
    (
      callback ref,
      rw (
        read_bytes-append (le_bytes 8 ref) rest 8 (sym size),
        drop-append (le_bytes 8 ref) rest 8 (sym size),
        le_value-le_bytes 8 ref h,
      ),
      refl,
    )
deserialize_argument-wire (fixed size memory) rest h =
    let text = take size memory in
    let n : size ≡ length text = omega (arith, length-take size memory) in
    (
      fixed size text,
      rw (read_bytes-append text rest size n, drop-append text rest size n),
      ap (fixed size) (take-all text size n),
    )

-- Whatever follows the arguments in the packet, the server reads back what the client wrote.
pub deserialize-wires :
    (args : List Arg) (rest : List ℕ)
    → AllReadable args
    → (args' : List Arg) × (deserialize (map param args) (wires args ++ rest) ≡ done args')
      × (map view args' ≡ map view args)
unfolding deserialize wires
deserialize-wires [] rest h = ([], refl, refl)
deserialize-wires (arg ∷ args) rest h =
    let (arg', read, seen) = deserialize_argument-wire arg (wires args ++ rest) h.0 in
    let (args', read_all, seen_all) = deserialize-wires args rest h.1 in
    (
      arg' ∷ args',
      rw (append_assoc (wire arg) (wires args) rest, read, read_all),
      λ i. seen i ∷ seen_all i,
    )

-- Arguments whose memory holds the bytes that they name, and whose numbers fit, are serialized, and
-- their bytes, with anything behind them, are deserialized to arguments that name the same bytes.
pub deserialize-serialize :
    (args : List Arg) (rest : List ℕ)
    → AllReadable args
    → (bytes : List ℕ) × (args' : List Arg) × (serialize args ≡ done bytes)
      × (deserialize (map param args) (bytes ++ rest) ≡ done args')
      × (map view args' ≡ map view args)
deserialize-serialize args rest h =
    let (args', read, seen) = deserialize-wires args rest h in
    (wires args, args', serialize_lem args h, read, seen)

length-wire :
    (arg : Arg) → IsReadable arg → length (wire arg) + 2 * dynamics (arg ∷ []) ≡ size_argument arg
unfolding wire dynamics size_argument
length-wire (dynamic len memory) h = omega (
  arith,
  length-append (le_bytes 2 len) (take len memory),
  length-le_bytes 2 len,
  length-take len memory,
)
length-wire (callback ref) h = omega (arith, length-le_bytes 8 ref)
length-wire (fixed size memory) h = omega (arith, length-take size memory)

dynamics-cons :
    (arg : Arg) (args : List Arg) → dynamics (arg ∷ args) ≡ dynamics (arg ∷ []) + dynamics args
unfolding dynamics
dynamics-cons (dynamic len memory) args = omega arith
dynamics-cons (callback ref) args = omega arith
dynamics-cons (fixed size memory) args = omega arith

pub length-wires :
    (args : List Arg)
    → AllReadable args
    → length (wires args) + 2 * dynamics args ≡ size_arguments args
unfolding wires size_arguments
length-wires [] h = unfold dynamics in omega arith
length-wires (arg ∷ args) h = omega (
  arith,
  length-append (wire arg) (wires args),
  length-wire arg h.0,
  length-wires args h.1,
  dynamics-cons arg args,
)

-- For arguments whose memory holds the bytes that they name, whose numbers fit and whose sizes sum
-- to less than 2^32, the buffer that SIZE_ARGUMENTS sizes is not overrun: it is sent with the bytes
-- of the arguments and, behind them, two bytes for each dynamic argument that the stack held.
pub fill_buffer_lem :
    (args : List Arg) (stale : List ℕ)
    → AllReadable args
    → size_arguments args < 2 ^ 32
    → fill_buffer args stale ≡ done (wires args ++ take (2 * dynamics args) stale)
unfolding fill_buffer
fill_buffer_lem args stale h small =
    let size = length-wires args h in
    let whole : u32 (size_arguments args) ≡ length (wires args) + 2 * dynamics args = omega arith in
    let spare : length (wires args) + 2 * dynamics args - length (wires args) ≡ 2 * dynamics args =
      omega arith in
    rw (
      serialize_lem args h,
      whole,
      le→ltb (length (wires args) + 2 * dynamics args) (length (wires args)) (omega arith),
      spare,
    )
