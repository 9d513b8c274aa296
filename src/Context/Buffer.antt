-- ===== src/Context/Buffer.antt =====
-- The payload buffer of dstc.c: `memcpy` into it, and allocations from it.
use dstc.Base.{
  ℕ, ◌+◌, ◌^◌, ◌≤◌, ◌<◌, ◌≡◌, sym, ◌∙◌, List, ◌++◌, some, none, arith, length, drop, length-append,
  take-append, drop-append, drop-drop, le→ltb, done,
}
use dstc.Context.{Context, memcpy, payload_buffer_alloc}

drop-part :
    {A : Type 0} (p old q : List A) (off n : ℕ)
    → off ≡ length p
    → length old ≡ n
    → drop (off + n) (p ++ (old ++ q)) ≡ q
drop-part p old q off n ho hn =
    sym (drop-drop off n (p ++ (old ++ q)))
    ∙ rw (drop-append p (old ++ q) off ho) (drop-append old q n (sym hn))

-- Writing over a part of the same length replaces that part, and nothing else.
pub memcpy_part :
    (p old q src : List ℕ) (off : ℕ)
    → off ≡ length p
    → length old ≡ length src
    → memcpy (p ++ (old ++ q)) off src ≡ done (p ++ (src ++ q))
unfolding memcpy
memcpy_part p old q src off ho hs = rw (
  le→ltb (length (p ++ (old ++ q))) (off + length src)
      (omega (arith, length-append p (old ++ q), length-append old q)),
  take-append p (old ++ q) off ho,
  drop-part p old q off (length src) ho hs,
)

module _ {Pub Sub : Type 0} where
  -- An allocation that fits takes the bytes from the index on, and moves the index past them.
  pub payload_buffer_alloc-fits :
      (ctx : Context Pub Sub) (size : ℕ)
      → length ctx.pub_buffer < 2 ^ 32
      → ctx.pub_buffer_ind + size ≤ length ctx.pub_buffer
      → payload_buffer_alloc ctx size
        ≡ (some ctx.pub_buffer_ind, record ctx { pub_buffer_ind = ctx.pub_buffer_ind + size })
  unfolding payload_buffer_alloc
  payload_buffer_alloc-fits ctx size hb hs = ground arith

  -- One that does not fit fails, and leaves the context as it was.
  pub payload_buffer_alloc-full :
      (ctx : Context Pub Sub) (size : ℕ)
      → length ctx.pub_buffer < 2 ^ 32
      → ctx.pub_buffer_ind ≤ length ctx.pub_buffer
      → length ctx.pub_buffer < ctx.pub_buffer_ind + size
      → payload_buffer_alloc ctx size ≡ (none, ctx)
  unfolding payload_buffer_alloc
  payload_buffer_alloc-full ctx size hb hi hs = ground arith
