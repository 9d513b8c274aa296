-- ===== src/Examples/Many/Check.antt =====
-- examples/many_arguments: the sixteen numbers of the client at the server.
use dstc.Base.{
  ℕ, ◌+◌, ◌*◌, ◌^◌, ◌≤◌, ◌<◌, ◌≡◌, ◌≢◌, ◌⊎◌, refl, sym, ap, ◌∙◌, arith, inl, inr, List, [], ◌∷◌,
  some, map, length, replicate, take, take-all, ◌==◌, Bool-cases, Outcome, done, exit,
}
use dstc.Wire.{le_bytes, le_value}
use dstc.Wire.Codec.{length-le_bytes, le_value-le_bytes}
use dstc.Rmc.{Rmc, System}
use dstc.Context.{Context}
use dstc.Context.Valid.{IsValid}
use dstc.Symtab.Local.{register_server_function}
use dstc.Dispatch.{Invocation, process_packet}
use dstc.Args.{Arg, dynamic, callback, fixed, fixed_param, param, size_argument, size_arguments}
use dstc.Args.RoundTrip.{AllReadable, view}
use dstc.Rpc.{IsReady, remote_call-sent}
use dstc.Examples.Stress.Order.{in_a_row}
use dstc.Examples.Many.{
  many_name, int_arguments, check_arguments, many_arguments, dstc_server_many_arguments,
  dstc_many_arguments,
}

abbrev pub AllWords : List ℕ → Type 0
AllWords [] = Unit {0}
AllWords (v ∷ vs) = (v < 2 ^ 32) × AllWords vs

head_of : ℕ → List ℕ → ℕ
head_of d [] = d
head_of d (x ∷ xs) = x

-- Arguments that name the bytes of numbers pass the tests if the numbers are in a row, and end the
-- process with 255 otherwise.
check_arguments-in_a_row :
    {C : Type 0} (k : ℕ) (args : List Arg) (vals : List ℕ) (c : C)
    → AllWords vals
    → map view args ≡ map view (int_arguments vals)
    → ((vals ≡ in_a_row k (length vals)) × (check_arguments k args c ≡ exit 0))
      ⊎ ((vals ≢ in_a_row k (length vals)) × (check_arguments k args c ≡ exit 255))
unfolding check_arguments view
check_arguments-in_a_row k [] [] c ok e = inl (refl, refl)
check_arguments-in_a_row k [] (v ∷ vals) c ok e = cc
check_arguments-in_a_row k (a ∷ args) [] c ok e = cc
check_arguments-in_a_row k (dynamic len memory ∷ args) (v ∷ vals) c ok e = cc
check_arguments-in_a_row k (callback ref ∷ args) (v ∷ vals) c ok e = cc
check_arguments-in_a_row k (fixed size memory ∷ args) (v ∷ vals) c ok e =
    let bytes : take size memory ≡ take 4 (le_bytes 4 v) = cc in
    let others : map view args ≡ map view (int_arguments vals) = cc in
    let number : le_value (take size memory) ≡ v =
      ap le_value (bytes ∙ take-all (le_bytes 4 v) 4 (sym (length-le_bytes 4 v)))
      ∙ le_value-le_bytes 4 v ok.0 in
    elim (Bool-cases (v == k)) [
      | inr other ↦ inr ((λ row. ground (arith, ap (head_of 0) row)), rw (number, other))
      | inl same ↦
          let first : v ≡ k = ground arith in
          elim (check_arguments-in_a_row (k + 1) args vals c ok.1 others) [
            | inl (row, passed) ↦ inl (
              ap (◌∷◌ v) row ∙ ap (λ (n : ℕ). n ∷ in_a_row (k + 1) (length vals)) first,
              rw (number, same, passed),
            )
            | inr (no_row, failed) ↦ inr ((λ row. no_row cc), rw (number, same, failed))
          ]
    ]

int_arguments-AllReadable : (vals : List ℕ) → AllReadable (int_arguments vals)
int_arguments-AllReadable [] = tt
int_arguments-AllReadable (v ∷ vals) =
    (omega (arith, length-le_bytes 4 v), int_arguments-AllReadable vals)

size_arguments-int_arguments :
    (vals : List ℕ) → size_arguments (int_arguments vals) ≡ 4 * length vals
unfolding size_arguments size_argument
size_arguments-int_arguments [] = refl
size_arguments-int_arguments (v ∷ vals) = omega (arith, size_arguments-int_arguments vals)

param-int_arguments :
    (vals : List ℕ) → map param (int_arguments vals) ≡ replicate (length vals) (fixed_param 4)
unfolding param
param-int_arguments [] = refl
param-int_arguments (v ∷ vals) = ap (◌∷◌ (fixed_param 4)) (param-int_arguments vals)

-- examples/many_arguments. On a node that is set up, does not collect calls and holds none, and
-- whose rmc is not suspended and takes every packet, with RMC_MAX_PAYLOAD below 2^16 and at least
-- 85: dstc_many_arguments with any sixteen numbers of 32 bits returns 0 and hands rmc one packet;
-- and a valid node on which DSTC_SERVER registered many_arguments ends by exit(0) at this packet if
-- the numbers are 1 to 16 in order, and by exit(255) otherwise.
pub many_arguments-checked :
    {Pub Sub Pub' Sub' : Type 0} (rmc : Rmc Pub Sub) (sys : System) (client : Context Pub Sub)
    (pub_ctx : Pub) (vals : List ℕ)
    (app : Invocation → Context Pub' Sub' → Outcome (Context Pub' Sub')) (max_payload f : ℕ)
    (before server : Context Pub' Sub')
    → IsReady rmc client pub_ctx
    → length vals ≡ 16
    → AllWords vals
    → 85 ≤ rmc.max_payload
    → IsValid max_payload before
    → register_server_function before many_name f ≡ done server
    → f ≢ 0
    → ((inv : Invocation) (c : Context Pub' Sub')
        → inv.func ≡ f
        → app inv c ≡ dstc_server_many_arguments inv.payload c)
    → (client' : Context Pub Sub) × (packet : List ℕ) × (dstc_many_arguments rmc sys client vals
        ≡ done (0, client'))
      × (client'.pub_ctx ≡ some (rmc.pub_queue_packet packet pub_ctx).1)
      × (((vals ≡ in_a_row 1 16) × (process_packet app server packet ≡ exit 0))
          ⊎ ((vals ≢ in_a_row 1 16) × (process_packet app server packet ≡ exit 255)))
unfolding dstc_many_arguments dstc_server_many_arguments many_arguments
many_arguments-checked rmc sys client pub_ctx vals app max_payload f before server ready sixteen ok
      room valid reg live runs =
    let (client', packet, args, made, gone, clear, called, seen) =
      remote_call-sent rmc sys client pub_ctx many_name (int_arguments vals) [] app max_payload f
        before server many_arguments ready.valid ready.up ready.off ready.empty ready.free
        ready.takes ready.small ready.word (λ e. cc) (omega arith) (int_arguments-AllReadable vals)
        (omega (arith, size_arguments-int_arguments vals)) valid reg live
        (λ inv c e. rw (param-int_arguments vals, sixteen) (runs inv c e)) in
    (
      client',
      packet,
      made,
      gone,
      elim (check_arguments-in_a_row 1 args vals server ok seen) [
        | inl (row, passed) ↦ inl ((rw sixteen at row), called ∙ passed)
        | inr (no_row, failed) ↦ inr ((rw sixteen at no_row), called ∙ failed)
      ],
    )
