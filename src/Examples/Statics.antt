-- ===== src/Examples/Statics.antt =====
-- The variables of a sample program that its functions keep between calls.
use dstc.Base.{◌≡◌}

-- A part `S` of what a function may change.
pub record Statics (C S : Type 0) : Type 0 where
  pub read : C → S
  pub write : S → C → C
  pub read-write : (s : S) (c : C) → read (write s c) ≡ s
