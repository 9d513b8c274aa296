-- ===== src/Examples/Elements/Print.antt =====
-- The loop of examples/callback_dyndata/callback_dyndata_client.c that prints the elements.
use dstc.Base.{
  ℕ, ◌*◌, ◌≡◌, refl, sym, ap, ◌∙◌, arith, List, [], ◌∷◌, ◌++◌, length, length-append, drop,
  take-append, drop-append, append_assoc, append-nil, flatten-append, length-reverse, le→ltb, subst,
  done,
}
use mathlib.Core.List.{flatten, reverse, reverse-cons, reverse-reverse}
use dstc.Args.{read_bytes}
use dstc.Examples.Elements.{elem_size, print_elements}

abbrev pub AllElements : List (List ℕ) → Type 0
AllElements [] = Unit {0}
AllElements (e ∷ es) = (length e ≡ elem_size) × AllElements es

AllElements-append :
    (xs ys : List (List ℕ)) → AllElements xs → AllElements ys → AllElements (xs ++ ys)
AllElements-append [] ys hx hy = hy
AllElements-append (x ∷ xs) ys hx hy = (hx.0, AllElements-append xs ys hx.1 hy)

AllElements-reverse : (es : List (List ℕ)) → AllElements es → AllElements (reverse es)
AllElements-reverse [] h = tt
AllElements-reverse (e ∷ es) h =
    subst AllElements (sym (reverse-cons e es))
      (AllElements-append (reverse es) (e ∷ []) (AllElements-reverse es h.1) (h.0, tt))

pub length-flatten :
    (es : List (List ℕ)) → AllElements es → length (flatten es) ≡ elem_size * length es
unfolding flatten
length-flatten [] h = refl
length-flatten (e ∷ es) h = omega (arith, length-append e (flatten es), length-flatten es h.1)

read_element :
    (front e rest : List ℕ) (n : ℕ)
    → length front ≡ elem_size * n
    → length e ≡ elem_size
    → read_bytes elem_size (drop (elem_size * n) (front ++ (e ++ rest))) ≡ done e
unfolding read_bytes
read_element front e rest n at size =
    rw
      (
        drop-append front (e ++ rest) (elem_size * n) (sym at),
        le→ltb (length (e ++ rest)) elem_size (omega (arith, length-append e rest)),
        take-append e rest elem_size (sym size),
      )
      refl

print_elements-reverse :
    (es : List (List ℕ)) (rest : List ℕ)
    → AllElements es
    → print_elements (length es) (flatten (reverse es) ++ rest) ≡ done es
unfolding print_elements flatten
print_elements-reverse [] rest h = refl
print_elements-reverse (e ∷ es) rest h =
    let n = length es in
    let front = flatten (reverse es) in
    let memory : flatten (reverse (e ∷ es)) ++ rest ≡ front ++ (e ++ rest) =
      ap (λ (xs : List (List ℕ)). flatten xs ++ rest) (reverse-cons e es)
      ∙ ap (λ (b : List ℕ). b ++ rest)
          (flatten-append (reverse es) (e ∷ []) ∙ ap (λ (b : List ℕ). front ++ b) (append-nil e))
      ∙ append_assoc front e rest in
    let at : length front ≡ elem_size * n =
      omega (arith, length-flatten (reverse es) (AllElements-reverse es h.1), length-reverse es) in
    rw (memory, read_element front e rest n at h.0, print_elements-reverse es (e ++ rest) h.1) refl

-- The elements are printed from the last to the first, whatever lies behind them.
pub print_elements-flatten :
    (es : List (List ℕ)) (rest : List ℕ)
    → AllElements es
    → print_elements (length es) (flatten es ++ rest) ≡ done (reverse es)
print_elements-flatten es rest h =
    ap (λ (n : ℕ). print_elements n (flatten es ++ rest)) (sym (length-reverse es))
    ∙ ap (λ (xs : List (List ℕ)). print_elements (length (reverse es)) (flatten xs ++ rest))
        (sym (reverse-reverse es))
    ∙ print_elements-reverse (reverse es) rest (AllElements-reverse es h)
