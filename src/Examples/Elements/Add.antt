-- ===== src/Examples/Elements/Add.antt =====
-- The array of examples/callback_dyndata/callback_dyndata_server.c: what it holds after elements were
-- added, and what happens behind its end.
use dstc.Base.{
  ℕ, ◌+◌, ◌≤◌, ◌<◌, ◌≡◌, ◌⊎◌, inl, inr, refl, sym, ap, ◌∙◌, arith, List, [], ◌∷◌, ◌++◌, length,
  length-append, append_assoc, append-nil, set, ltb, Bool-cases, ltb→lt, ltb→le, subst, done, fault,
}
use dstc.Examples.Elements.{Elements, max_elems, add_element, add_elements}

-- The array holds the elements and, behind them, the rest of its hundred places.
abbrev pub Stores : Elements → List (List ℕ) → Type 0
Stores s es =
    (rest : List (List ℕ)) × (s.elems ≡ es ++ rest)
    × (s.elem_index ≡ length es)
    × (length es + length rest ≡ max_elems)

set-append_end :
    (es : List (List ℕ)) (e old : List ℕ) (rest : List (List ℕ))
    → set (es ++ old ∷ rest) (length es) e ≡ es ++ e ∷ rest
set-append_end [] e old rest = refl
set-append_end (x ∷ es) e old rest = ap (◌∷◌ x) (set-append_end es e old rest)

add_element-Stores :
    (s : Elements) (es : List (List ℕ)) (e : List ℕ)
    → Stores s es
    → length es < max_elems
    → (s' : Elements) × (add_element s e ≡ done s') × Stores s' (es ++ e ∷ [])
unfolding add_element
add_element-Stores s es e ([], all, index, size) room = absurd (omega arith)
add_element-Stores s es e (old ∷ rest, all, index, size) room = (
  record { elems = set s.elems s.elem_index e; elem_index = s.elem_index + 1 },
  ground arith,
  (
    rest,
    rw (all, index) (set-append_end es e old rest ∙ sym (append_assoc es (e ∷ []) rest)),
    omega (arith, length-append es (e ∷ [])),
    omega (arith, length-append es (e ∷ [])),
  ),
)

add_element-full :
    (s : Elements) (es : List (List ℕ)) (e : List ℕ)
    → Stores s es
    → max_elems ≤ length es
    → add_element s e ≡ fault
unfolding add_element
add_element-full s es e (rest, all, index, size) full = ground arith

-- Where the server's array of a hundred places holds some elements, adding more either fits, and
-- then the array holds them behind the first ones, in order, or there are more than a hundred in
-- all, and then the server writes past the array.
pub add_elements_lem :
    (s : Elements) (es more : List (List ℕ))
    → Stores s es
    → ((length es + length more ≤ max_elems)
        × (s' : Elements) × (add_elements s more ≡ done s')
        × Stores s' (es ++ more))
      ⊎ ((max_elems < length es + length more) × (add_elements s more ≡ fault))
unfolding add_elements
add_elements_lem s es [] h =
    let (rest, all, index, size) = h in
    inl (omega arith, s, refl, subst (Stores s) (sym (append-nil es)) h)
add_elements_lem s es (e ∷ more) h = elim (Bool-cases (ltb (length es) max_elems)) [
  | inr full ↦
      let over = ltb→le (length es) max_elems full in
      inr (omega (arith, over), rw (add_element-full s es e h over))
  | inl room ↦
      let (s', added, h') = add_element-Stores s es e h (ltb→lt (length es) max_elems room) in
      let size = length-append es (e ∷ []) in
      elim (add_elements_lem s' (es ++ e ∷ []) more h') [
        | inl (fits, s'', rest, h'') ↦ inl (
          omega (arith, size, fits),
          s'',
          rw added rest,
          subst (Stores s'') (append_assoc es (e ∷ []) more) h'',
        )
        | inr (over, ended) ↦ inr (omega (arith, size, over), rw added ended)
      ]
]
