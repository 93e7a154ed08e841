-- ===== src/Pt/Statics.antt =====
-- inc/ek_picothread.h: the macros that define static threads, semaphores and message queues, which
-- `ek_static_alloc_init` makes.
use ek_utils.Base.{
  ℕ, ◌<◌, ◌≡◌, refl, ap, ◌∙◌, arith, Bool, true, false, not, ◌||◌, Option, none, some, List, [],
  ◌∷◌, map, update, ltb, if_false, bind_some,
}
use ek_utils.Err.{Err, ok}
use ek_utils.Startup.StaticAlloc.{Item, static_alloc_register, init_items, kept_error}
use ek_utils.Pt.Kernel.{Kernel, levels, prio_lowest}
use ek_utils.Pt.Kept.{IsKept}
use ek_utils.Pt.Born.{enlist-IsKept}
use ek_utils.Pt.Threads.{init_static}
use ek_utils.Pt.Sem.{sem_init}
use ek_utils.Pt.Msg.{msg_init_static}

-- The functions that the macros define, on a kernel that is `none` behind a fault.
abbrev pub define_pt : ℕ → Bool → ℕ → Option Kernel → Err × Option Kernel
define_pt i has_cb prio none = (ok, none)
define_pt i has_cb prio (some k) = elim (init_static (some i) has_cb prio k) [
  | none ↦ (ok, none)
  | some r ↦ (r.0, some r.1)
]

abbrev pub define_pt_sem : ℕ → ℕ → Option Kernel → Err × Option Kernel
define_pt_sem s count none = (ok, none)
define_pt_sem s count (some k) = let r = sem_init (some s) count k in (r.0, some r.1)

abbrev pub define_pt_msg : ℕ → ℕ → ℕ → Option Kernel → Err × Option Kernel
define_pt_msg m size amount none = (ok, none)
define_pt_msg m size amount (some k) =
    let r = msg_init_static (some m) size amount k in (r.0, some r.1)

-- An object of a program: what its macro was given.
pub data Static : Type 0 where
  thread : ℕ → Bool → ℕ → Static
  semaphore : ℕ → ℕ → Static
  queue : ℕ → ℕ → ℕ → Static

abbrev pub init_object : Static → Option Kernel → Err × Option Kernel
init_object (thread i has_cb prio) k = define_pt i has_cb prio k
init_object (semaphore s count) k = define_pt_sem s count k
init_object (queue m size amount) k = define_pt_msg m size amount k

-- The entry of the object number `f` in the table.
abbrev pub entry : ℕ → Item
entry f = static_alloc_register 20 (some f)

module _ (objects : ℕ → Static) where
  -- Threads, with the numbers of their objects and their priorities, that are not made, and differ.
  abbrev pub AllNew : (ℕ → Bool) → List (ℕ × ℕ × ℕ) → Type 0
  AllNew live [] = Unit {0}
  AllNew live ((f, i, prio) ∷ ts) =
      (objects f ≡ thread i true prio)
      × (live i ≡ false)
      × (prio < levels)
      × AllNew (update live i true) ts

  abbrev pub with_all : (ℕ → Bool) → List (ℕ × ℕ × ℕ) → ℕ → Bool
  with_all live [] = live
  with_all live ((f, i, prio) ∷ ts) = with_all (update live i true) ts

  -- When the lists of the kernel agree with its threads, the loop of `ek_static_alloc_init` over
  -- static threads of priorities below 32, none of them made before or named twice, makes them all
  -- without an error, and the lists agree with the threads after it.
  pub static_threads-IsKept :
      (live : ℕ → Bool) (ts : List (ℕ × ℕ × ℕ)) (k : Kernel)
      → IsKept live live k
      → AllNew live ts
      → (k' : Kernel) × (init_items
            (λ f. init_object (objects f))
            (map (λ t. entry t.0) ts)
            ok
            (some k)
          ≡ (ok, some k'))
        × IsKept (with_all live ts) (with_all live ts) k'
  unfolding init_items init_static
  static_threads-IsKept live [] k is new = (k, refl, is)
  static_threads-IsKept live ((f, i, prio) ∷ ts) k is (o, dead, lt, new) =
      let (k1, e, kept, sp) = enlist-IsKept live live i k is prio dead lt in
      let (k2, e2, kept2) = static_threads-IsKept (update live i true) ts k1 kept new in
      let made : init_static (some i) true prio k ≡ some (ok, k1) =
        if_false (not k.inited || ltb prio_lowest prio) _ _ (ground (arith, is.inited))
        ∙ bind_some _ k1 _ _ e refl in
      let done : init_object (objects f) (some k) ≡ (ok, some k1) =
        ap (λ x. init_object x (some k)) o
        ∙ ap (λ x. elim x [ none ↦ (ok, none) | some r ↦ (r.0, some r.1) ]) made in
      (
        k2,
        ap
              (λ r.
                init_items (λ f. init_object (objects f)) (map (λ t. entry t.0) ts)
                  (kept_error ok r.0) r.1)
              done
            ∙ e2,
        kept2,
      )
