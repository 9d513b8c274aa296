-- ===== src/Queue/Frame.antt =====
-- The frame that `_dstc_queue` of dstc.c writes for a call, in the bytes that it allocated.
use dstc.Base.{
  ℕ, ◌+◌, ◌≡◌, refl, List, [], ◌∷◌, ◌++◌, Option, none, some, arith, length, take-skip, drop-skip,
  take, drop, length-append, length-drop, length-take, take-append-drop, append_assoc, done,
}
use dstc.Wire.{u16, le_bytes, header_bytes}
use dstc.Wire.Codec.{length-le_bytes, length-header_bytes}
use dstc.Context.{memcpy}
use dstc.Context.Buffer.{memcpy_part}
use dstc.Queue.{write_call}

-- The calls that travel: a function by its name, or a callback by its reference.
pub data Call : Type 0 where
  func : List ℕ → List ℕ → Call
  reply : ℕ → List ℕ → Call

unfoldable pub payload_bytes : Call → List ℕ
payload_bytes (func name arg) = (name ++ 0 ∷ []) ++ arg
payload_bytes (reply ref arg) = (0 ∷ []) ++ (le_bytes 8 ref ++ arg)

unfoldable pub frame : ℕ → Call → List ℕ
frame node_id call = header_bytes node_id (u16 (length (payload_bytes call))) ++ payload_bytes call

memcpy_head :
    (old q src : List ℕ) → length old ≡ length src → memcpy (old ++ q) 0 src ≡ done (src ++ q)
memcpy_head old q src h = memcpy_part [] old q src 0 refl h

-- A write behind a prefix leaves the prefix alone.
memcpy_skip :
    (p buf src buf' : List ℕ) (off o : ℕ)
    → memcpy buf off src ≡ done buf'
    → o ≡ length p + off
    → memcpy (p ++ buf) o src ≡ done (p ++ buf')
unfolding memcpy
memcpy_skip p buf src buf' off o h e = ground (
  arith,
  length-append p buf,
  take-skip p buf off o e,
  drop-skip p buf (off + length src) (o + length src),
  append_assoc p (take off buf) (src ++ drop (off + length src) buf),
)

module _ (p q : List ℕ) (node_id callback_ref : ℕ) (arg o1 o2 : List ℕ) (h1 : length o1 ≡ 4)
    (h2 : length o2 ≡ 2) where
  write_func :
      (name o3 o4 : List ℕ)
      → length o3 ≡ length name + 1
      → length o4 ≡ length arg
      → write_call
          (p ++ (o1 ++ (o2 ++ (o3 ++ (o4 ++ q)))))
          (length p)
          node_id
          (some name)
          callback_ref
          arg
        ≡ done (
            p
            ++ (le_bytes 4 node_id
                ++ (le_bytes 2 (u16 (length name + 1 + length arg))
                    ++ ((name ++ 0 ∷ []) ++ (arg ++ q)))))
  unfolding write_call
  write_func name o3 o4 h3 h4 =
      let id = le_bytes 4 node_id in
      let len = le_bytes 2 (u16 (length name + 1 + length arg)) in
      let text = name ++ 0 ∷ [] in
      let text_len : length text ≡ length name + 1 = length-append name (0 ∷ []) in
      let id_len = length-le_bytes 4 node_id in
      let len_len = length-le_bytes 2 (u16 (length name + 1 + length arg)) in
      rw (
        memcpy_skip p _ id _ 0 (length p)
            (memcpy_head o1 (o2 ++ (o3 ++ (o4 ++ q))) id (omega arith)) (omega arith),
        memcpy_skip p _ text _ 6 (length p + 6)
            (memcpy_skip id _ text _ 2 6
              (memcpy_skip o2 _ text _ 0 2 (memcpy_head o3 (o4 ++ q) text (omega arith))
                (omega arith))
              (omega arith))
            refl,
        memcpy_skip p _ len _ 4 (length p + 4)
            (memcpy_skip id _ len _ 0 4 (memcpy_head o2 (text ++ (o4 ++ q)) len (omega arith))
              (omega arith))
            refl,
        memcpy_skip p _ arg _ (6 + (length name + 1)) (length p + 6 + (length name + 1))
            (memcpy_skip id _ arg _ (2 + (length name + 1)) (6 + (length name + 1))
              (memcpy_skip len _ arg _ (length name + 1) (2 + (length name + 1))
                (memcpy_skip text _ arg _ 0 (length name + 1) (memcpy_head o4 q arg h4)
                  (omega arith))
                (omega arith))
              (omega arith))
            (omega arith),
      )

  write_reply :
      (o3 o4 o5 : List ℕ)
      → length o3 ≡ 1
      → length o4 ≡ 8
      → length o5 ≡ length arg
      → write_call
          (p ++ (o1 ++ (o2 ++ (o3 ++ (o4 ++ (o5 ++ q))))))
          (length p)
          node_id
          none
          callback_ref
          arg
        ≡ done (
            p
            ++ (le_bytes 4 node_id
                ++ (le_bytes 2 (u16 (9 + length arg))
                    ++ ((0 ∷ []) ++ (le_bytes 8 callback_ref ++ (arg ++ q))))))
  unfolding write_call
  write_reply o3 o4 o5 h3 h4 h5 =
      let id = le_bytes 4 node_id in
      let len = le_bytes 2 (u16 (9 + length arg)) in
      let nil : List ℕ = 0 ∷ [] in
      let ref = le_bytes 8 callback_ref in
      let id_len = length-le_bytes 4 node_id in
      let len_len = length-le_bytes 2 (u16 (9 + length arg)) in
      let ref_len = length-le_bytes 8 callback_ref in
      rw (
        memcpy_skip p _ id _ 0 (length p)
            (memcpy_head o1 (o2 ++ (o3 ++ (o4 ++ (o5 ++ q)))) id (omega arith)) (omega arith),
        memcpy_skip p _ nil _ 6 (length p + 6)
            (memcpy_skip id _ nil _ 2 6
              (memcpy_skip o2 _ nil _ 0 2 (memcpy_head o3 (o4 ++ (o5 ++ q)) nil h3) (omega arith))
              (omega arith))
            refl,
        memcpy_skip p _ ref _ 7 (length p + 6 + 1)
            (memcpy_skip id _ ref _ 3 7
              (memcpy_skip o2 _ ref _ 1 3
                (memcpy_skip nil _ ref _ 0 1 (memcpy_head o4 (o5 ++ q) ref (omega arith)) refl)
                (omega arith))
              (omega arith))
            (omega arith),
        memcpy_skip p _ len _ 4 (length p + 4)
            (memcpy_skip id _ len _ 0 4
              (memcpy_head o2 (nil ++ (ref ++ (o5 ++ q))) len (omega arith)) (omega arith))
            refl,
        memcpy_skip p _ arg _ 15 (length p + 6 + 9)
            (memcpy_skip id _ arg _ 11 15
              (memcpy_skip len _ arg _ 9 11
                (memcpy_skip nil _ arg _ 8 9
                  (memcpy_skip ref _ arg _ 0 8 (memcpy_head o5 q arg h5) (omega arith)) refl)
                (omega arith))
              (omega arith))
            (omega arith),
      )

-- The three arguments of `_dstc_queue` for a call.
unfoldable pub call_name : Call → Option (List ℕ)
call_name (func name arg) = some name
call_name (reply ref arg) = none

unfoldable pub call_ref : Call → ℕ
call_ref (func name arg) = 0
call_ref (reply ref arg) = ref

unfoldable pub call_arg : Call → List ℕ
call_arg (func name arg) = arg
call_arg (reply ref arg) = arg

split_room : (k : ℕ) (room q : List ℕ) → room ++ q ≡ take k room ++ (drop k room ++ q)
split_room k room q = rw (← append_assoc (take k room) (drop k room) q, take-append-drop k room)

pub length-payload_bytes-func :
    (name arg : List ℕ) → length (payload_bytes (func name arg)) ≡ length name + 1 + length arg
unfolding payload_bytes
length-payload_bytes-func name arg =
    omega (arith, length-append (name ++ 0 ∷ []) arg, length-append name (0 ∷ []))

pub length-payload_bytes-reply :
    (ref : ℕ) (arg : List ℕ) → length (payload_bytes (reply ref arg)) ≡ 9 + length arg
unfolding payload_bytes
length-payload_bytes-reply ref arg =
    omega (arith, length-append (le_bytes 8 ref) arg, length-le_bytes 8 ref)

pub length-frame :
    (node_id : ℕ) (call : Call) → length (frame node_id call) ≡ 6 + length (payload_bytes call)
unfolding frame
length-frame node_id call =
    let len = u16 (length (payload_bytes call)) in
    omega (
      arith,
      length-append (header_bytes node_id len) (payload_bytes call),
      length-header_bytes node_id len,
    )

-- The writes put the frame of the call over the bytes allocated for it, and touch no others.
pub write_call-frame :
    (p q room : List ℕ) (node_id : ℕ) (call : Call)
    → length room ≡ length (frame node_id call)
    → write_call
        (p ++ (room ++ q))
        (length p)
        node_id
        (call_name call)
        (call_ref call)
        (call_arg call)
      ≡ done (p ++ (frame node_id call ++ q))
unfolding frame header_bytes payload_bytes call_name call_ref call_arg
write_call-frame p q room node_id (func name arg) h =
    let size : length room ≡ 7 + length name + length arg =
      omega (arith, length-frame node_id (func name arg), length-payload_bytes-func name arg) in
    let r2 = drop 4 room in
    let r3 = drop 2 r2 in
    let n = length name + 1 in
    let d2 = length-drop 4 room in
    let d3 = length-drop 2 r2 in
    rw
      (
        split_room 4 room q,
        split_room 2 r2 q,
        split_room n r3 q,
        write_func p q node_id 0 arg (take 4 room) (take 2 r2) (omega (arith, length-take 4 room))
            (omega (arith, length-take 2 r2)) name (take n r3) (drop n r3)
            (omega (arith, length-take n r3)) (omega (arith, length-drop n r3)),
      )
      (rw (length-payload_bytes-func name arg) (simp append_assoc))
write_call-frame p q room node_id (reply ref arg) h =
    let size : length room ≡ 15 + length arg =
      omega (arith, length-frame node_id (reply ref arg), length-payload_bytes-reply ref arg) in
    let r2 = drop 4 room in
    let r3 = drop 2 r2 in
    let r4 = drop 1 r3 in
    let d2 = length-drop 4 room in
    let d3 = length-drop 2 r2 in
    let d4 = length-drop 1 r3 in
    rw
      (
        split_room 4 room q,
        split_room 2 r2 q,
        split_room 1 r3 q,
        split_room 8 r4 q,
        write_reply p q node_id ref arg (take 4 room) (take 2 r2)
            (omega (arith, length-take 4 room)) (omega (arith, length-take 2 r2)) (take 1 r3)
            (take 8 r4) (drop 8 r4) (omega (arith, length-take 1 r3))
            (omega (arith, length-take 8 r4)) (omega (arith, length-drop 8 r4)),
      )
      (rw (length-payload_bytes-reply ref arg) (simp append_assoc))
