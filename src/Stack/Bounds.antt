-- ===== src/Stack/Bounds.antt =====
-- The representation invariant of the stack: the slots lie inside the storage and no offset wraps.
use mathlib.Core.Path.{subst}
use mathlib.Core.Option.{some-injective}
use ek_utils.Base.{
  ℕ, ◌-◌, ◌*◌, ◌/◌, ◌≤◌, ◌<◌, ◌≡◌, refl, arith, inl, inr, Bool-cases, Option-cases, Option, some,
  ◌==◌, ◌||◌, ltb, leb, length, length-drop, Bytes, length-blit, word, max_word, add32, mul32,
}
use ek_utils.Slots.{request_fits}
use ek_utils.Lock.{LockOps}
use ek_utils.Stack.{Stack, create, push_item, pop_item, is_full, is_empty}

pub record IsValid {Lock : Type 0} (sk : Stack Lock) : Type 0 where
  pub storage : sk.cap * sk.item_size ≤ length sk.bytes
  pub fits : sk.cap * sk.item_size < word
  pub items : 0 < sk.item_size
  pub small : sk.cap < word
  pub sp_in : sk.sp ≤ sk.cap

module _ {Lock : Type 0} (ops : LockOps Lock) where
  -- `ek_stack_push` keeps the invariant.
  pub push_item-IsValid :
      {sk : Stack Lock} (item : Bytes) → IsValid sk → IsValid (push_item ops sk item).1
  unfolding push_item is_full
  push_item-IsValid {sk} item v = elim (Bool-cases (ops.try sk.lock).0) [
    | inr e ↦ rw e (assumption)
    | inl e ↦ elim (Bool-cases (leb sk.cap sk.sp)) [
      | inl e' ↦ rw (e, e') (assumption)
      | inr e' ↦
          rw (e, e')
            (record {
              storage = rw length-blit v.storage;
              fits = v.fits;
              items = v.items;
              small = v.small;
              sp_in = ground arith;
            })
    ]
  ]

  -- `ek_stack_pop` keeps the invariant.
  pub pop_item-IsValid :
      {sk : Stack Lock} (out : Bytes) → IsValid sk → IsValid (pop_item ops sk out).2
  unfolding pop_item is_empty
  pop_item-IsValid {sk} out v = elim (Bool-cases (ops.try sk.lock).0) [
    | inr e ↦ rw e (assumption)
    | inl e ↦ elim (Bool-cases (sk.sp == 0)) [
      | inl e' ↦ rw (e, e') (assumption)
      | inr e' ↦
          rw (e, e')
            (record {
              storage = v.storage;
              fits = v.fits;
              items = v.items;
              small = v.small;
              sp_in = ground arith;
            })
    ]
  ]

  -- A stack that `ek_stack_create` returns is valid and empty and has the capacity asked for, if
  -- `ek_malloc` returns blocks that are as long as was asked.
  pub stack_create-IsValid :
      (malloc : ℕ → Option Bytes) (header : ℕ) (raw : Lock) (item_size item_amount : ℕ)
      {sk : Stack Lock}
      → ((n : ℕ) (b : Bytes) → malloc n ≡ some b → n ≤ length b)
      → header < word
      → item_amount < word
      → create ops malloc header raw item_size item_amount ≡ some sk
      → IsValid sk × (sk.sp ≡ 0) × (sk.cap ≡ item_amount)
  unfolding create
  stack_create-IsValid malloc header raw s n {sk} long hh hn e =
      elim (Bool-cases (n == 0 || s == 0)) [
        | inl z ↦ cc (rw z at e)
        | inr nz ↦ elim (Bool-cases (ltb ((max_word - header) / s) n)) [
          | inl big ↦ cc (rw (nz, big) at e)
          | inr fit ↦ elim (Option-cases (malloc (add32 header (mul32 n s)))) [
            | inl m ↦ cc (rw (nz, fit, m) at e)
            | inr (b, m) ↦
                let r = request_fits header n s hh (ground arith) (ground arith) in
                let long' = long (add32 header (mul32 n s)) b m in
                subst (λ r. IsValid r × (r.sp ≡ 0) × (r.cap ≡ n))
                  (some-injective _ _ (rw (nz, fit, m) at e))
                  (
                    record {
                      storage = omega (arith, length-drop header b, r.0);
                      fits = r.1;
                      items = ground arith;
                      small = hn;
                      sp_in = omega arith;
                    },
                    refl,
                    refl,
                  )
          ]
        ]
      ]
