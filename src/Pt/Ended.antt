-- ===== src/Pt/Ended.antt =====
-- src/ek_picothread.c: what ending a thread keeps.
use ek_utils.Base.{
  refl_eq, ℕ, ◌≡◌, refl, ◌∙◌, true, false, Bool, some, none, update, if_false, bind_some,
}
use ek_utils.Err.{aborted}
use ek_utils.Pt.Kernel.{suspended, Thread, Kernel}
use ek_utils.Pt.Queues.{set_thread}
use ek_utils.Pt.Kept.{IsKept, IsKept-set_thread}
use ek_utils.Pt.Moved.{relisted, leave_as}
use ek_utils.Pt.Rewaited.{Spares, Spares-trans}
use ek_utils.Pt.Unwaited.{leave_sem_as, leave_msg_as}
use ek_utils.Pt.Born.{buried}
use ek_utils.Pt.Threads.{detach, destroy, deinit_static, is_cur}

module _ (live on : ℕ → Bool) (i : ℕ) (k : Kernel) (is : IsKept live on k) where
  -- Out of all lists, and told so.
  detach-IsKept :
      on i ≡ true
      → (k' : Kernel) × (detach i k ≡ some k')
        × IsKept live (update on i false) k'
        × ((k'.thread i).wait_sem ≡ none)
        × ((k'.thread i).wait_msg ≡ none)
        × Spares i k k'
  unfolding detach
  detach-IsKept o =
      let l = is.lives i o in
      let off = update on i false in
      let off_i : off i ≡ false = rw (refl_eq i) refl in
      let (r, mask, b, e1, kept1) = leave_as live on i k is (k.thread i).state o refl in
      let k1 = relisted r mask b k in
      let (k2, e2, kept2, to2, n2, m2) =
        leave_sem_as live off i k1 kept1 (k1.thread i).wait_sem aborted l refl in
      let (k3, e3, kept3, to3, n3, m3) =
        leave_msg_as live off i k2 kept2 (k2.thread i).wait_msg aborted l refl in
      let t = k3.thread i in
      let t' : Thread = record t { wait_result = aborted } in
      let k4 = set_thread i t' k3 in
      (
        k4,
        bind_some _ k1 _ _ e1 (bind_some _ k2 _ _ e2 (bind_some _ k3 _ _ e3 refl)),
        IsKept-set_thread live off i t' k3 kept3 off_i refl refl refl,
        rw (refl_eq i) (m3 ∙ n2),
        rw (refl_eq i) n3,
        Spares-trans i k k2 k4 (record { cur = to2.spares.cur; others = to2.spares.others })
            (record { cur = to3.spares.cur; others = λ c h. rw h (to3.spares.others c h) }),
      )

  pub destroy-IsKept :
      is_cur i k ≡ false
      → on i ≡ true
      → (k' : Kernel) × (destroy (some i) k ≡ some k')
        × IsKept (update live i false) (update on i false) k'
        × Spares i k k'
  unfolding destroy
  destroy-IsKept c o =
      let (k', e, kept, ns, nm, sp) = detach-IsKept o in
      (
        k',
        if_false (is_cur i k) _ _ c ∙ e,
        buried live (update on i false) i k' kept (rw (refl_eq i) refl) ns nm,
        sp,
      )

  -- The thread stays, suspended.
  pub deinit_static-IsKept :
      is_cur i k ≡ false
      → on i ≡ true
      → (k' : Kernel) × (deinit_static (some i) k ≡ some k')
        × IsKept (update live i false) (update on i false) k'
        × Spares i k k'
  unfolding deinit_static
  deinit_static-IsKept c o =
      let (k1, e, kept, ns, nm, sp) = detach-IsKept o in
      let off = update on i false in
      let off_i : off i ≡ false = rw (refl_eq i) refl in
      let t = k1.thread i in
      let t' : Thread = record t { state = suspended } in
      let k' = set_thread i t' k1 in
      (
        k',
        if_false (is_cur i k) _ _ c ∙ bind_some _ k1 _ _ e refl,
        buried live off i k' (IsKept-set_thread live off i t' k1 kept off_i refl refl refl) off_i
            (rw (refl_eq i) ns) (rw (refl_eq i) nm),
        Spares-trans i k k1 k' sp (record { cur = refl; others = λ c h. rw h refl }),
      )
