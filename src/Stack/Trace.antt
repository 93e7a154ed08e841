-- ===== src/Stack/Trace.antt =====
-- Any sequence of calls on a valid stack answers as the bounded stack of its contents does.
use mathlib.Core.Path.{subst}
use ek_utils.Base.{
  ℕ, ◌≡◌, refl, sym, ap, ◌∙◌, inl, inr, Bool-cases, Option, none, some, List, [], ◌∷◌, ◌==◌, leb,
  Bytes,
}
use ek_utils.Lock.{LockOps, IsLock}
use ek_utils.Lifo
use ek_utils.Lifo.{Op, put, pull, Reply, Fits}
use ek_utils.Stack.{Stack, push, pop, push_item, pop_item, is_full, is_empty}
use ek_utils.Stack.Bounds.{IsValid, push_item-IsValid, pop_item-IsValid}
use ek_utils.Stack.Refine.{contents, Free, push_item_refines, pop_item_refines}

module _ {Lock : Type 0} (ops : LockOps Lock) where
  -- The calls of a client in order, with what each returns.
  unfoldable pub run : Option (Stack Lock) → List Op → List Reply
  run sk [] = []
  run sk (put x ∷ l) = let (e, sk') = push ops sk (some x) in (e, none) ∷ run sk' l
  run sk (pull out ∷ l) = let (e, out', sk') = pop ops sk (some out) in (e, out') ∷ run sk' l

  -- Between calls: the stack is valid, its lock is free, and its sizes are those of the start.
  pub record Idle (cap size : ℕ) (sk : Stack Lock) : Type 0 where
    pub valid : IsValid sk
    pub free : Free ops sk
    pub cap_same : sk.cap ≡ cap
    pub size_same : sk.item_size ≡ size

  shape :
      (sk : Stack Lock) (x : Bytes)
      → ((push_item ops sk x).1.cap ≡ sk.cap)
        × ((push_item ops sk x).1.item_size ≡ sk.item_size)
        × ((pop_item ops sk x).2.cap ≡ sk.cap)
        × ((pop_item ops sk x).2.item_size ≡ sk.item_size)
  unfolding push_item pop_item is_full is_empty
  shape sk x = elim (Bool-cases (ops.try sk.lock).0) [
    | inr e ↦ rw e (refl, refl, refl, refl)
    | inl e ↦ elim (Bool-cases (leb sk.cap sk.sp)) [
      | inl f ↦ elim (Bool-cases (sk.sp == 0)) [
        | inl z ↦ rw (e, f, z) (refl, refl, refl, refl)
        | inr z ↦ rw (e, f, z) (refl, refl, refl, refl)
      ]
      | inr f ↦ elim (Bool-cases (sk.sp == 0)) [
        | inl z ↦ rw (e, f, z) (refl, refl, refl, refl)
        | inr z ↦ rw (e, f, z) (refl, refl, refl, refl)
      ]
    ]
  ]

  -- On a valid stack whose lock is free, any sequence of `ek_stack_push` and `ek_stack_pop` that
  -- pushes items of the stack's size returns the codes and fills the buffers as the bounded stack of
  -- at most `cap` items does that starts with the stack's contents.
  pub stack_refines_lifo :
      (cap size : ℕ) (l : List Op) {sk : Stack Lock}
      → IsLock ops
      → Idle cap size sk
      → Fits size l
      → run (some sk) l ≡ Lifo.run cap (contents sk) l
  unfolding run push pop Lifo.run
  stack_refines_lifo cap size [] m i fit = refl
  stack_refines_lifo cap size (put x ∷ l) {sk} m i fit =
      let (step, free) = push_item_refines ops x m i.valid i.free (fit.0 ∙ sym i.size_same) in
      let (c, s, _, _) = shape sk x in
      let i' : Idle cap size (push_item ops sk x).1 = record {
        valid = push_item-IsValid ops x i.valid;
        free = free;
        cap_same = c ∙ i.cap_same;
        size_same = s ∙ i.size_same;
      } in
      rw (stack_refines_lifo cap size l m i' fit.1) (
        ap (λ p. (p.0, none) ∷ Lifo.run cap p.1 l)
          (subst
            (λ k.
              ((push_item ops sk x).0, contents (push_item ops sk x).1)
              ≡ Lifo.push k (contents sk) x)
            i.cap_same step))
  stack_refines_lifo cap size (pull out ∷ l) {sk} m i fit =
      let (step, free) = pop_item_refines ops out m i.valid i.free in
      let (_, _, c, s) = shape sk out in
      let i' : Idle cap size (pop_item ops sk out).2 = record {
        valid = pop_item-IsValid ops out i.valid;
        free = free;
        cap_same = c ∙ i.cap_same;
        size_same = s ∙ i.size_same;
      } in
      rw (stack_refines_lifo cap size l m i' fit)
        (ap (λ p. (p.0, some p.1) ∷ Lifo.run cap p.2 l) step)
