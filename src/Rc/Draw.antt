-- ===== src/Rc/Draw.antt =====
-- core/matmul/matmul_v4_rc.cpp: the loops that draw hash blocks until enough values are there,
-- `expand_mantissa_stream` and `expand_scale_stream`. Only the values that are accepted count, so the number
-- of blocks is not known beforehand: the outer loop runs on fuel.
use mathlib.Core.Option
use btx_miner.Common.{
  ℕ, zero, suc, ◌+◌, ◌-◌, ◌%◌, ◌^◌, ◌≤◌, ◌≡◌, refl, ap, sym, ◌∙◌, true, false, List, [], ◌∷◌, ◌++◌,
  Option, none, some, length, take, leb, if◌then◌else◌, arith, length-append, take-append,
  Bool-cases, Option-cases, inl, inr,
}

module _ {A : Type 0} (accept : ℕ → Option A) where
  -- The loop over the items of one block: the values for the next places, and the places left.
  unfoldable pub fill : List ℕ → ℕ → List A × ℕ
  fill [] want = ([], want)
  fill (n ∷ ns) zero = ([], 0)
  fill (n ∷ ns) (suc want) = elim (accept n) [
    | none ↦ fill ns (suc want)
    | some v ↦ (let rest = fill ns want in (v ∷ rest.0, rest.1))
  ]

  -- All the values of a block.
  abbrev pub prepend : Option A → List A → List A
  prepend none vs = vs
  prepend (some v) vs = v ∷ vs

  unfoldable pub values : List ℕ → List A
  values [] = []
  values (n ∷ ns) = prepend (accept n) (values ns)

  fill_step :
      (n : ℕ) (ns : List ℕ) (want : ℕ) (o : Option A)
      → accept n ≡ o
      → fill ns (suc want) ≡ (take (suc want) (values ns), suc want - length (values ns))
      → fill ns want ≡ (take want (values ns), want - length (values ns))
      → fill (n ∷ ns) (suc want)
        ≡ (take (suc want) (prepend o (values ns)), suc want - length (prepend o (values ns)))
  unfolding fill
  fill_step n ns want none e h k = rw (e, fill) h
  fill_step n ns want (some v) e h k =
      let left : want - length (values ns) ≡ suc want - suc (length (values ns)) = omega arith in
      rw (e, fill) (rw k (ap (λ m. (v ∷ take want (values ns), m)) left))

  -- A pass over a block takes its first values.
  pub fill-eq-take :
      (ns : List ℕ) (want : ℕ) → fill ns want ≡ (take want (values ns), want - length (values ns))
  unfolding fill values
  fill-eq-take [] zero = refl
  fill-eq-take [] (suc want) = ap (λ m. ([], m)) (omega arith)
  fill-eq-take (n ∷ ns) zero = ground arith
  fill-eq-take (n ∷ ns) (suc want) =
      fill_step n ns want (accept n) refl (fill-eq-take ns (suc want)) (fill-eq-take ns want)

  module _ (block_at : ℕ → List ℕ) where
    -- The loop over the blocks, whose number is a `uint64_t`; `none` when the fuel runs out.
    unfoldable pub draw : ℕ → ℕ → ℕ → Option (List A)
    draw fuel block zero = some []
    draw zero block (suc want) = none
    draw (suc fuel) block (suc want) =
        let (got, left) = fill (block_at block) (suc want) in
        Option.map (λ more. got ++ more) (draw fuel ((block + 1) % 2 ^ 64) left)

    -- The values of so many blocks, one after the other.
    unfoldable pub stream : ℕ → ℕ → List A
    stream zero block = []
    stream (suc fuel) block = values (block_at block) ++ stream fuel ((block + 1) % 2 ^ 64)

    abbrev pub if_enough : ℕ → List A → Option (List A)
    if_enough want vs = if leb want (length vs) then some (take want vs) else none

    if_enough-append :
        (want : ℕ) (vs ws : List A)
        → Option.map (λ more. take want vs ++ more) (if_enough (want - length vs) ws)
          ≡ if_enough want (vs ++ ws)
    if_enough-append want vs ws = elim (Bool-cases (leb (want - length vs) (length ws))) [
      | inl e ↦
          let e' : leb want (length (vs ++ ws)) ≡ true = ground (arith, length-append vs ws) in
          rw (e, e') (ap some (sym (take-append want vs ws)))
      | inr e ↦
          let e' : leb want (length (vs ++ ws)) ≡ false = ground (arith, length-append vs ws) in
          rw (e, e') refl
    ]

    -- The loop gives the first values of the stream, in their order, exactly when the blocks that it may
    -- draw hold enough of them.
    pub draw-eq-take :
        (fuel block want : ℕ) → draw fuel block want ≡ if_enough want (stream fuel block)
    unfolding draw stream
    draw-eq-take zero block zero = refl
    draw-eq-take (suc fuel) block zero = ground arith
    draw-eq-take zero block (suc want) = ground arith
    draw-eq-take (suc fuel) block (suc want) =
        let vs = values (block_at block) in
        let next = (block + 1) % 2 ^ 64 in
        rw (fill-eq-take (block_at block) (suc want)) (
          ap (λ o. Option.map (λ more. take (suc want) vs ++ more) o)
            (draw-eq-take fuel next (suc want - length vs))
          ∙ if_enough-append (suc want) vs (stream fuel next))

    -- More fuel changes no result.
    pub draw_more :
        (fuel more block want : ℕ) {vs : List A}
        → fuel ≤ more
        → draw fuel block want ≡ some vs
        → draw more block want ≡ some vs
    unfolding draw
    draw_more zero zero block zero h e = e
    draw_more zero (suc more) block zero h e = e
    draw_more (suc fuel) (suc more) block zero h e = e
    draw_more zero more block (suc want) h e = ground arith
    draw_more (suc fuel) zero block want h e = absurd (omega arith)
    draw_more (suc fuel) (suc more) block (suc want) h e =
        let left = (fill (block_at block) (suc want)).1 in
        let next = (block + 1) % 2 ^ 64 in
        elim (Option-cases (draw fuel next left)) [
          | inl gone ↦ absurd (ground (arith, gone))
          | inr (ws, got) ↦
              let later = draw_more fuel more next left (omega arith) got in
              ground (arith, got, later)
        ]
