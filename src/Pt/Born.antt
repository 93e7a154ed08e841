-- ===== src/Pt/Born.antt =====
-- src/ek_picothread.c: what making and ending a thread keep.
use mathlib.Core.Path.{ap₂}
use ek_utils.Base.{
  refl_eq, ℕ, ◌<◌, ◌≡◌, refl, sym, ap, ◌∙◌, arith, inl, inr, Bool-cases, Bool, true, false, ◌&&◌,
  ◌||◌, Option, none, some, ◌==◌, has, update, if_false,
}
use ek_utils.Pt.Kernel.{Thread, Kernel, levels}
use ek_utils.Pt.Placed.{IsPlaced-anew}
use ek_utils.Pt.Primitives.{linked_as, enqueued}
use ek_utils.Pt.Waits.{IsQueued-same}
use ek_utils.Pt.TwoWaits.{IsQueuedTwice-same, not_twice}
use ek_utils.Pt.Queues.{set_thread, state_linked, event_linked}
use ek_utils.Pt.Kept.{
  IsKept, is_none, is_ready, is_blocked, in_ready, in_block, on_sem, on_msg, waits_for_none,
  elsewhere,
}
use ek_utils.Pt.Moved.{on_still, ready_enqueue-IsKept}
use ek_utils.Pt.Rewaited.{Spares}
use ek_utils.Pt.Threads.{new_thread, enlist}

on_of : (a b : Bool) → (a && b) ≡ true → a ≡ true
on_of a b h = ground (arith, h)

module _ (live on : ℕ → Bool) (i : ℕ) (k : Kernel) (is : IsKept live on k) where
  not_on : live i ≡ false → on i ≡ false
  not_on dead = elim (Bool-cases (on i)) [ inl o ↦ absurd (cc (dead, is.lives i o)) | inr o ↦ o ]

  unlinked : live i ≡ false → (state_linked i k || event_linked i k) ≡ false
  unfolding event_linked
  unlinked dead =
      let off = not_on dead in
      let s : state_linked i k ≡ false =
        linked_as i k (in_ready on k.thread) (in_block on k.thread) is.placed ∙ rw off refl in
      ap₂ ◌||◌ s (ap₂ ◌||◌ (no_sem (k.thread i).wait_sem) (no_msg (k.thread i).wait_msg))
    where
      no_sem : (o : Option ℕ) → elim o [ none ↦ false | some s ↦ has i (k.sem s).wait_list ] ≡ false
      no_sem none = refl
      no_sem (some s) = is.sems.listed s i ∙ rw dead refl

      no_msg :
          (o : Option ℕ)
          → elim o [
            | none ↦ false
            | some m ↦ has i (k.msg m).recv_wait || has i (k.msg m).send_wait
          ]
            ≡ false
      no_msg none = refl
      no_msg (some m) =
          let n =
            not_twice (λ c. (k.msg c).recv_wait) (λ c. (k.msg c).send_wait) (on_msg live k.thread)
              is.msgs m i (rw dead refl) in
          ap₂ ◌||◌ n.0 n.1

  born-IsKept :
      (t : Thread)
      → live i ≡ false
      → t.prio < levels
      → t.wait_sem ≡ none
      → t.wait_msg ≡ none
      → IsKept (update live i true) on (set_thread i t k)
  born-IsKept t dead p ws wm =
      let off = not_on dead in
      record {
        inited = is.inited;
        placed =
            IsPlaced-anew (λ c. (k.thread c).prio) k.ready_list k.mask k.block_list
              (in_ready on k.thread) (in_block on k.thread) is.placed
              (λ c. (update k.thread i t c).prio) (in_ready on (update k.thread i t))
              (in_block on (update k.thread i t))
              (λ c h. elim (Bool-cases (c == i)) [
                | inl e ↦
                    let eq : c ≡ i = ground arith in absurd (cc (on_of (on c) _ h, off, ap on eq))
                | inr e ↦ rw e refl
              ])
              (elsewhere k.thread i t on off is_ready) (elsewhere k.thread i t on off is_blocked);
        sems =
            IsQueued-same _ (on_sem live k.thread) is.sems _ _ (λ q. refl)
              (λ c. elim (Bool-cases (c == i)) [
                | inl e ↦ let d : live c ≡ false = dead_at c e in rw (e, d) ws
                | inr e ↦ rw e refl
              ]);
        msgs =
            IsQueuedTwice-same _ _ (on_msg live k.thread) is.msgs _ _ _ (λ q. refl) (λ q. refl)
              (λ c. elim (Bool-cases (c == i)) [
                | inl e ↦ let d : live c ≡ false = dead_at c e in rw (e, d) wm
                | inr e ↦ rw e refl
              ]);
        calm = λ c o w. elim (Bool-cases (c == i)) [
          | inl e ↦ let eq : c ≡ i = ground arith in absurd (cc (o, off, ap on eq))
          | inr e ↦
              let n : update k.thread i t c ≡ k.thread c = rw e refl in
              ap (λ z. z.state) n ∙ is.calm c o (ap (λ z. waits_for_none z) (sym n) ∙ w)
        ];
        single = λ c l. elim (Bool-cases (c == i)) [
          | inl e ↦ rw e (ground (arith, ap is_none ws))
          | inr e ↦ rw e (is.single c (ground (arith, e, l)))
        ];
        prio_lt = λ c l. elim (Bool-cases (c == i)) [
          | inl e ↦ rw e p
          | inr e ↦ rw e (is.prio_lt c (ground (arith, e, l)))
        ];
        lives = λ c o. ground (arith, is.lives c o);
      }
    where
      dead_at : (c : ℕ) → (c == i) ≡ true → live c ≡ false
      dead_at c e = let eq : c ≡ i = ground arith in ap live eq ∙ dead

  -- A thread that is not made yet becomes a ready one.
  pub enlist-IsKept :
      (prio : ℕ)
      → live i ≡ false
      → prio < levels
      → (k' : Kernel) × (enlist i prio k ≡ some k')
        × IsKept (update live i true) (update on i true) k'
        × Spares i k k'
  enlist-IsKept prio dead p =
      let t = new_thread prio in
      let off = not_on dead in
      let k1 = set_thread i t k in
      let kept = born-IsKept t dead p refl refl in
      let (e, done) =
        ready_enqueue-IsKept (update live i true) on i k1 kept off (rw (refl_eq i) refl)
          (rw (refl_eq i) refl) (rw (refl_eq i) refl) in
      (
        enqueued i k1,
        if_false (state_linked i k || event_linked i k) _ _ (unlinked dead) ∙ e,
        done,
        record { cur = refl; others = λ c h. rw h refl },
      )

  -- A thread that is in no list is no longer counted among those that are made.
  pub buried :
      on i ≡ false
      → (k.thread i).wait_sem ≡ none
      → (k.thread i).wait_msg ≡ none
      → IsKept (update live i false) on k
  buried off ws wm = record {
    inited = is.inited;
    placed = is.placed;
    sems =
        IsQueued-same _ (on_sem live k.thread) is.sems _ _ (λ q. refl)
          (λ c. elim (Bool-cases (c == i)) [
            | inl e ↦
                let eq : c ≡ i = ground arith in
                let w : (k.thread c).wait_sem ≡ none = ap (λ z. (k.thread z).wait_sem) eq ∙ ws in
                rw (e, w) (ground arith)
            | inr e ↦ rw e refl
          ]);
    msgs =
        IsQueuedTwice-same _ _ (on_msg live k.thread) is.msgs _ _ _ (λ q. refl) (λ q. refl)
          (λ c. elim (Bool-cases (c == i)) [
            | inl e ↦
                let eq : c ≡ i = ground arith in
                let w : (k.thread c).wait_msg ≡ none = ap (λ z. (k.thread z).wait_msg) eq ∙ wm in
                rw (e, w) (ground arith)
            | inr e ↦ rw e refl
          ]);
    calm = is.calm;
    single = λ c l. is.single c (on_still live i c l);
    prio_lt = λ c l. is.prio_lt c (on_still live i c l);
    lives = λ c o. elim (Bool-cases (c == i)) [
      | inl e ↦ let eq : c ≡ i = ground arith in absurd (cc (o, off, ap on eq))
      | inr e ↦ rw e (is.lives c o)
    ];
  }
