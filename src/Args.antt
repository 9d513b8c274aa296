-- ===== src/Args.antt =====
-- dstc.h, the code that the DSTC_* macros generate: how arguments are sized, serialized and
-- deserialized, and the client and callback functions built on that.
pub mod RoundTrip
use dstc.Base.{
  ℕ, zero, suc, ◌+◌, ◌-◌, List, [], ◌∷◌, ◌++◌, length, take, drop, ltb, ◌==◌, if◌then◌else◌, map,
  Outcome, done, fault, ◌>>=◌,
}
use dstc.Wire.{u16, u32, le_bytes, le_value, ref_size}
use dstc.Rmc.{Rmc, System}
use dstc.Context.{Context}
use dstc.Queue.{queue_func, queue_callback}

-- What the first four characters of a parameter's type select: DSTC_DYNARG_TAG, DSTC_CALLBACK_TAG,
-- or any other type, of `sizeof(type size)` bytes.
pub data Param : Type 0 where
  dynamic_param : Param
  callback_param : Param
  fixed_param : ℕ → Param

-- An argument: a `dstc_dynamic_data_t` with the memory that its pointer names, a callback reference,
-- or a value of so many bytes with the memory that it is copied from (`value_argument`).
pub data Arg : Type 0 where
  dynamic : ℕ → List ℕ → Arg
  callback : ℕ → Arg
  fixed : ℕ → List ℕ → Arg

-- A parameter `type size`: where `sizeof(type size)` is not `sizeof(type)` it is an array, which C passes as
-- a pointer, and the bytes are those that are pointed to; otherwise they are the parameter's own, so that
-- an array of one element is sent as the bytes of its pointer.
abbrev pub value_argument : ℕ → ℕ → List ℕ → List ℕ → Arg
value_argument type_size size own pointed_to =
    fixed size (if size == type_size then own else pointed_to)

unfoldable pub param : Arg → Param
param (dynamic len memory) = dynamic_param
param (callback ref) = callback_param
param (fixed size memory) = fixed_param size

-- The source of a `memcpy` of `n` bytes.
unfoldable pub read_bytes : ℕ → List ℕ → Outcome (List ℕ)
read_bytes n memory = if ltb (length memory) n then fault else done (take n memory)

-- SERIALIZE_ARGUMENT: the bytes that it puts at `payload`.
unfoldable pub serialize_argument : Arg → Outcome (List ℕ)
serialize_argument (dynamic len memory) = do
  bytes ← read_bytes len memory
  done (le_bytes 2 len ++ bytes)
serialize_argument (callback ref) = done (le_bytes 8 ref)
serialize_argument (fixed size memory) = read_bytes size memory

unfoldable pub serialize : List Arg → Outcome (List ℕ)
serialize [] = done []
serialize (arg ∷ args) = do
  bytes ← serialize_argument arg
  rest ← serialize args
  done (bytes ++ rest)

-- DESERIALIZE_ARGUMENT: the argument, and `payload` behind it. The data pointer of a dynamic argument
-- points into the payload.
unfoldable pub deserialize_argument : Param → List ℕ → Outcome (Arg × List ℕ)
deserialize_argument dynamic_param payload = do
  prefix ← read_bytes 2 payload
  let len = le_value prefix
  let memory = drop 2 payload
  bytes ← read_bytes len memory
  done (dynamic len memory, drop len memory)
deserialize_argument callback_param payload = do
  bytes ← read_bytes ref_size payload
  done (callback (le_value bytes), drop ref_size payload)
deserialize_argument (fixed_param size) payload = do
  bytes ← read_bytes size payload
  done (fixed size bytes, drop size payload)

unfoldable pub deserialize : List Param → List ℕ → Outcome (List Arg)
deserialize [] payload = done []
deserialize (p ∷ params) payload = do
  (arg, payload) ← deserialize_argument p payload
  args ← deserialize params payload
  done (arg ∷ args)

-- SIZE_ARGUMENT: a dynamic argument counts `sizeof(uint32_t)` for its length.
unfoldable pub size_argument : Arg → ℕ
size_argument (dynamic len memory) = 4 + u16 len
size_argument (callback ref) = ref_size
size_argument (fixed size memory) = size

unfoldable pub size_arguments : List Arg → ℕ
size_arguments [] = 0
size_arguments (arg ∷ args) = size_argument arg + size_arguments args

-- `arg_buf` when it is passed on: what was serialized into it, and behind that what the stack held.
-- Writing more than its `arg_sz` bytes faults.
unfoldable pub fill_buffer : List Arg → List ℕ → Outcome (List ℕ)
fill_buffer args stale = do
  bytes ← serialize args
  let arg_sz = u32 (size_arguments args)
  if ltb arg_sz (length bytes) then fault else done (bytes ++ take (arg_sz - length bytes) stale)

module _ {Pub Sub : Type 0} (rmc : Rmc Pub Sub) (sys : System) where
  -- The function `dstc_name` of DSTC_CLIENT(name, …); `stale` is the uninitialized buffer.
  unfoldable pub client_function :
      Context Pub Sub → List ℕ → List Arg → List ℕ → Outcome (ℕ × Context Pub Sub)
  client_function ctx name args stale = do
    arg_buf ← fill_buffer args stale
    queue_func rmc sys ctx name arg_buf

  -- The function of DSTC_SERVER_CALLBACK: a null reference makes no call.
  unfoldable pub callback_function :
      Context Pub Sub → ℕ → List Arg → List ℕ → Outcome (ℕ × Context Pub Sub)
  callback_function ctx cb_ref args stale =
      if cb_ref == 0
      then done (0, ctx)
      else fill_buffer args stale >>= λ arg_buf. queue_callback rmc sys ctx cb_ref arg_buf

-- The dispatch function of DSTC_SERVER(name, …) and of DSTC_CLIENT_CALLBACK: the arguments are read
-- off the payload, whatever its length is said to be, and the application's function is called.
unfoldable pub server_function {ℓ} :
    {S : Type ℓ} → List Param → (List Arg → S → Outcome S) → List ℕ → S → Outcome S
server_function params name payload s = deserialize params payload >>= λ args. name args s
