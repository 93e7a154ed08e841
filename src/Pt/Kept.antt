-- ===== src/Pt/Kept.antt =====
-- src/ek_picothread.c: when the lists of the kernel agree with what its threads say of themselves.
use mathlib.Core.Path.{ap₂}
use ek_utils.Base.{
  ℕ, ◌<◌, ◌≡◌, refl, sym, ap, ◌∙◌, arith, inl, inr, Bool-cases, Bool, true, false, ◌&&◌, ◌||◌,
  if◌then◌else◌, Option, none, some, ◌==◌, update,
}
use ek_utils.Pt.Kernel.{State, ready, blocked, Thread, Kernel, levels}
use ek_utils.Pt.Placed.{IsPlaced-same}
use ek_utils.Pt.Primitives.{Places}
use ek_utils.Pt.Waits.{IsQueued, IsQueued-same}
use ek_utils.Pt.TwoWaits.{IsQueuedTwice, IsQueuedTwice-same}
use ek_utils.Pt.Queues.{set_thread}

abbrev pub is_ready : State → Bool
is_ready ready = true
is_ready _ = false

abbrev pub is_blocked : State → Bool
is_blocked blocked = true
is_blocked _ = false

abbrev pub is_none : Option ℕ → Bool
is_none none = true
is_none (some s) = false

abbrev pub waits_for_none : Thread → Bool
waits_for_none t = is_none t.wait_sem && is_none t.wait_msg

abbrev pub waits_for_one : Thread → Bool
waits_for_one t = is_none t.wait_sem || is_none t.wait_msg

module _ (on : ℕ → Bool) where
  abbrev pub in_ready : (ℕ → Thread) → ℕ → Bool
  in_ready t c = on c && is_ready (t c).state

  abbrev pub in_block : (ℕ → Thread) → ℕ → Bool
  in_block t c = on c && is_blocked (t c).state

  abbrev pub on_sem : (ℕ → Thread) → ℕ → Option ℕ
  on_sem t c = if on c then (t c).wait_sem else none

  abbrev pub on_msg : (ℕ → Thread) → ℕ → Option ℕ
  on_msg t c = if on c then (t c).wait_msg else none

-- `live` are the threads that are made and not ended, `on` those of them that are not in the midst of
-- their callbacks. The lists link the threads of `on` by their states, and those of `live` by what
-- they wait for; one of `on` waits only while it is blocked, and none for two objects.
pub record IsKept (live on : ℕ → Bool) (k : Kernel) : Type 0 where
  pub inited : k.inited ≡ true
  pub placed : Places k (in_ready on k.thread) (in_block on k.thread)
  pub sems : IsQueued (λ s. (k.sem s).wait_list) (on_sem live k.thread)
  pub msgs :
      IsQueuedTwice (λ m. (k.msg m).recv_wait) (λ m. (k.msg m).send_wait) (on_msg live k.thread)
  pub calm :
      (c : ℕ) → on c ≡ true → waits_for_none (k.thread c) ≡ false → (k.thread c).state ≡ blocked
  pub single : (c : ℕ) → live c ≡ true → waits_for_one (k.thread c) ≡ true
  pub prio_lt : (c : ℕ) → live c ≡ true → (k.thread c).prio < levels
  pub lives : (c : ℕ) → on c ≡ true → live c ≡ true

module _ (f : ℕ → Thread) (i : ℕ) (t : Thread) where
  pub passed : (c : ℕ) → (c == i) ≡ false → update f i t c ≡ f c
  passed c e = rw e refl

  pub at_update {ℓ} :
      {A : Type ℓ} (g : Thread → A) (c : ℕ) → g t ≡ g (f i) → g (update f i t c) ≡ g (f c)
  at_update g c h = elim (Bool-cases (c == i)) [
    | inl e ↦ let eq : c ≡ i = ground arith in rw e (h ∙ ap (λ z. g (f z)) (sym eq))
    | inr e ↦ rw e refl
  ]

  pub elsewhere :
      (on : ℕ → Bool)
      → on i ≡ false
      → (g : State → Bool) (c : ℕ) → (on c && g (update f i t c).state) ≡ (on c && g (f c).state)
  elsewhere on off g c = elim (Bool-cases (c == i)) [
    | inl e ↦ let eq : c ≡ i = ground arith in let o : on c ≡ false = ap on eq ∙ off in rw o refl
    | inr e ↦ rw e refl
  ]

-- A thread written anew, of which the lists say nothing, with the priority and the waits of before.
pub IsKept-set_thread :
    (live on : ℕ → Bool) (i : ℕ) (t : Thread) (k : Kernel)
    → IsKept live on k
    → on i ≡ false
    → t.prio ≡ (k.thread i).prio
    → t.wait_sem ≡ (k.thread i).wait_sem
    → t.wait_msg ≡ (k.thread i).wait_msg
    → IsKept live on (set_thread i t k)
IsKept-set_thread live on i t k is off p s m =
    let prio : (c : ℕ) → (update k.thread i t c).prio ≡ (k.thread c).prio =
      λ c. at_update k.thread i t (λ z. z.prio) c p in
    let sem : (c : ℕ) → (update k.thread i t c).wait_sem ≡ (k.thread c).wait_sem =
      λ c. at_update k.thread i t (λ z. z.wait_sem) c s in
    let msg : (c : ℕ) → (update k.thread i t c).wait_msg ≡ (k.thread c).wait_msg =
      λ c. at_update k.thread i t (λ z. z.wait_msg) c m in
    record {
      inited = is.inited;
      placed =
          IsPlaced-same (λ c. (k.thread c).prio) k.ready_list k.mask k.block_list
            (in_ready on k.thread) (in_block on k.thread) is.placed
            (λ c. (update k.thread i t c).prio) (in_ready on (update k.thread i t))
            (in_block on (update k.thread i t)) prio (λ c. elsewhere k.thread i t on off is_ready c)
            (λ c. elsewhere k.thread i t on off is_blocked c);
      sems =
          IsQueued-same _ _ is.sems _ _ (λ q. refl)
            (λ c. ap (λ z. if live c then z else none) (sem c));
      msgs =
          IsQueuedTwice-same _ _ _ is.msgs _ _ _ (λ q. refl) (λ q. refl)
            (λ c. ap (λ z. if live c then z else none) (msg c));
      calm = λ c o w. elim (Bool-cases (c == i)) [
        | inl e ↦ let eq : c ≡ i = ground arith in absurd (cc (o, off, ap on eq))
        | inr e ↦
            rw e (is.calm c o (ap (λ z. waits_for_none z) (sym (passed k.thread i t c e)) ∙ w))
      ];
      single = λ c l. ap₂ (λ a b. is_none a || is_none b) (sem c) (msg c) ∙ is.single c l;
      prio_lt = λ c l. rw (prio c) (is.prio_lt c l);
      lives = is.lives;
    }
