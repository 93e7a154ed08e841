-- ===== src/Pt/Rounds.antt =====
-- src/ek_picothread.c: what a round of `ek_pt_schedule` keeps.
use mathlib.Core.Option.{some-injective}
use ek_utils.Base.{
  refl_eq, ℕ, zero, suc, ◌+◌, ◌≡◌, ◌≢◌, refl, sym, ap, ◌∙◌, arith, inl, inr, Bool-cases,
  Option-cases, Bool, true, false, ◌&&◌, Option, none, some, List, [], ◌∷◌, ◌==◌, has, ◌∈◌, update,
  bind_some, unless_true,
}
use ek_utils.Dlist.Chain.{has-append}
use ek_utils.Pt.Kernel.{State, ready, suspended, blocked, running, Thread, Kernel, levels}
use ek_utils.Pt.Primitives.{enqueued, asleep}
use ek_utils.Pt.Kept.{IsKept, is_ready, waits_for_none, IsKept-set_thread}
use ek_utils.Pt.Moved.{
  relisted, leave_as, idle_back-IsKept, ready_enqueue-IsKept, block_insert-IsKept,
}
use ek_utils.Pt.Queues.{set_thread, next_ready}
use ek_utils.Pt.ReadyQueue.{first_of, joined, ready_queue, next_ready_lem}
use ek_utils.Pt.Threads.{leave_queue}
use ek_utils.Pt.Woken.{IsKept-again, wake_due-IsKept, asleep_blocked}
use ek_utils.Pt.Schedule.{after_callback, dispatch, schedule, wake_time}

-- Other values of `s_cur_pt`, `s_next_pt` and `s_schedule_now`.
pub IsKept-cur :
    (live on : ℕ → Bool) (k : Kernel) (cur next : Option ℕ) (now : ℕ)
    → IsKept live on k
    → IsKept live on (record k { cur = cur; next = next; now = now })
IsKept-cur live on k cur next now is = record {
  inited = is.inited;
  placed = is.placed;
  sems = is.sems;
  msgs = is.msgs;
  calm = is.calm;
  single = is.single;
  prio_lt = is.prio_lt;
  lives = is.lives;
}

-- What a thread leaves behind when its callback returns: lists that agree with all others, itself
-- still the current one, not ready, and blocked if it waits.
abbrev pub IsLeft : (ℕ → Bool) → ℕ → Kernel → Type 0
IsLeft live i k =
    IsKept live (update live i false) k
    × (k.cur ≡ some i)
    × ((k.thread i).state ≢ ready)
    × (waits_for_none (k.thread i) ≡ false → (k.thread i).state ≡ blocked)

-- Each callback of a thread that is made comes to an end from every kernel whose lists agree with its
-- threads, and leaves the lists so; it makes and ends no thread.
abbrev pub Friendly : (ℕ → Bool) → (ℕ → Kernel → Option Kernel) → Type 0
Friendly live callback =
    (i : ℕ) (k : Kernel)
    → live i ≡ true
    → IsKept live (update live i false) k
    → k.cur ≡ some i
    → (k.thread i).state ≡ running
    → waits_for_none (k.thread i) ≡ true
    → (k' : Kernel) × (callback i k ≡ some k') × IsLeft live i k'

has-joined : (i n p : ℕ) (r : ℕ → List ℕ) → i ∈ joined n p r → (q : ℕ) × (i ∈ r q)
has-joined i zero p r m = absurd (cc m)
has-joined i (suc n) p r m = elim (Bool-cases (has i (r p))) [
  | inl h ↦ (p, h)
  | inr h ↦ has-joined i n (p + 1) r (ground (arith, has-append i (r p) (joined n (p + 1) r), h, m))
]

first_has : (i : ℕ) (xs : List ℕ) → first_of xs ≡ some i → i ∈ xs
first_has i [] e = absurd (cc e)
first_has i (x ∷ xs) e = let q : x ≡ i = some-injective x i e in ground arith

is_ready_at : (s : State) → is_ready s ≡ true → s ≡ ready
is_ready_at ready h = refl
is_ready_at blocked h = absurd (cc h)
is_ready_at suspended h = absurd (cc h)
is_ready_at running h = absurd (cc h)

home_of : (a l : Bool) (x p : ℕ) → ((l && a) && x == p) ≡ true → x ≡ p
home_of a l x p h = ground (arith, h)

-- What follows a callback, by the current thread that it left.
abbrev go_on : Kernel → Option ℕ → Option Kernel
go_on k o = elim o [ none ↦ none | some c ↦ after_callback (k.thread c).state c k ]

module _ (live : ℕ → Bool) (callback : ℕ → Kernel → Option Kernel)
    (fr : Friendly live callback) where
  after_callback-IsKept :
      (s : State) (i : ℕ) (k : Kernel)
      → live i ≡ true
      → (k.thread i).state ≡ s
      → IsLeft live i k
      → (k' : Kernel) × (after_callback s i k ≡ some k') × IsKept live live k'
  unfolding after_callback
  after_callback-IsKept running i k l s (is, c, nr, w) =
      let off = update live i false in
      let off_i : off i ≡ false = rw (refl_eq i) refl in
      let calm : waits_for_none (k.thread i) ≡ true =
        elim (Bool-cases (waits_for_none (k.thread i))) [
          | inl h ↦ h
          | inr h ↦ let b = w h in absurd (cc (s, b))
        ] in
      let t = k.thread i in
      let t' : Thread = record t { state = ready } in
      let k1 = set_thread i t' k in
      let kept1 = IsKept-set_thread live off i t' k is off_i refl refl refl in
      let (e, kept) =
        ready_enqueue-IsKept live off i k1 kept1 off_i l (rw (refl_eq i) refl)
          (rw (refl_eq i) calm) in
      (enqueued i k1, e, IsKept-again live live i true (enqueued i k1) l kept)
  after_callback-IsKept blocked i k l s (is, c, nr, w) =
      let off = update live i false in
      let off_i : off i ≡ false = rw (refl_eq i) refl in
      let (e, kept) = block_insert-IsKept live off i k is off_i l s in
      (asleep i k, e, IsKept-again live live i true (asleep i k) l kept)
  after_callback-IsKept suspended i k l s (is, c, nr, w) =
      let off = update live i false in
      let off_i : off i ≡ false = rw (refl_eq i) refl in
      let calm : waits_for_none (k.thread i) ≡ true =
        elim (Bool-cases (waits_for_none (k.thread i))) [
          | inl h ↦ h
          | inr h ↦ let b = w h in absurd (cc (s, b))
        ] in
      (
        k,
        refl,
        IsKept-again live live i true k l
            (idle_back-IsKept live off i k is l calm (rw s refl) (rw s refl)),
      )
  after_callback-IsKept ready i k l s (is, c, nr, w) = absurd (nr s)

  dispatch-IsKept :
      (i : ℕ) (k : Kernel)
      → IsKept live live k
      → live i ≡ true
      → (k.thread i).state ≡ ready
      → (k' : Kernel) × (dispatch callback (some i) k ≡ some k') × IsKept live live k'
  unfolding dispatch leave_queue
  dispatch-IsKept i k is l s =
      let off = update live i false in
      let off_i : off i ≡ false = rw (refl_eq i) refl in
      let k0 = record k { cur = some i } in
      let kept0 = IsKept-cur live live k (some i) k.next k.now is in
      let (r, mask, b, e1, kept1) = leave_as live live i k0 kept0 ready l s in
      let k1 = relisted r mask b k0 in
      let t = k1.thread i in
      let t' : Thread = record t { state = running } in
      let k2 = set_thread i t' k1 in
      let kept2 = IsKept-set_thread live off i t' k1 kept1 off_i refl refl refl in
      let calm : waits_for_none (k.thread i) ≡ true =
        elim (Bool-cases (waits_for_none (k.thread i))) [
          | inl h ↦ h
          | inr h ↦ let bl = is.calm i l h in absurd (cc (s, bl))
        ] in
      let (k3, e3, left) = fr i k2 l kept2 refl (rw (refl_eq i) refl) (rw (refl_eq i) calm) in
      let (k4, e4, kept4) = after_callback-IsKept (k3.thread i).state i k3 l refl left in
      (k4, bind_some _ k1 _ _ e1 (bind_some _ k3 _ _ e3 (ap (go_on k3) left.1 ∙ e4)), kept4)

  -- When no thread is in its callback, the lists of the kernel agree with the threads that are made,
  -- and each callback comes to an end and leaves them so: `ek_pt_schedule` returns, having removed no
  -- node that is in no list and inserted none that is in one, and the lists agree after it.
  pub schedule-IsKept :
      (now : ℕ) (k : Kernel)
      → IsKept live live k
      → (tick : ℕ) × (k' : Kernel) × (schedule callback now k ≡ some (tick, k'))
        × IsKept live live k'
  unfolding schedule dispatch
  schedule-IsKept now k is =
      let k0 = record k { now = now } in
      let kept0 = IsKept-cur live live k k.cur k.next now is in
      let (k1, e1, kept1) =
        wake_due-IsKept live live k.block_list k0 is.placed.once_block
          (asleep_blocked live live k is) kept0 in
      let found : next_ready k1 ≡ some (first_of (ready_queue k1)) = next_ready_lem k1 (record {
        masked = kept1.placed.masked;
        home = λ p c m.
            home_of (is_ready (k1.thread c).state) (live c) (k1.thread c).prio p
              (sym (kept1.placed.readied p c) ∙ m);
      }) in
      elim (Option-cases (first_of (ready_queue k1))) [
        | inl no_one ↦
            let k2 = record k1 { next = none; cur = none } in
            (
              wake_time k2,
              k2,
              unless_true k.inited _ _ is.inited
                  ∙ bind_some _ k1 _ _ e1 (bind_some _ none _ _ (found ∙ ap some no_one) refl),
              IsKept-cur live live k1 none none k1.now kept1,
            )
        | inr (i, e) ↦
            let (p, m) = has-joined i levels 0 k1.ready_list (first_has i (ready_queue k1) e) in
            let h = sym (kept1.placed.readied p i) ∙ m in
            let l : live i ≡ true = ground (arith, h) in
            let s : (k1.thread i).state ≡ ready =
              is_ready_at (k1.thread i).state (ground (arith, h)) in
            let k2 = record k1 { next = some i } in
            let kept2 = IsKept-cur live live k1 k1.cur (some i) k1.now kept1 in
            let (k3, e3, kept3) = dispatch-IsKept i k2 kept2 l s in
            (
              wake_time k3,
              k3,
              unless_true k.inited _ _ is.inited
                  ∙ bind_some _ k1 _ _ e1
                      (bind_some _ (some i) _ _ (found ∙ ap some e) (bind_some _ k3 _ _ e3 refl)),
              kept3,
            )
      ]
