-- ===== src/Pt/Lifetimes.antt =====
-- src/ek_picothread.c: semaphores and message queues are made, initialised and reset.
use ek_utils.Base.{
  ℕ, ◌≡◌, refl, sym, ap, ◌∙◌, inl, inr, Bool-cases, Option-cases, Bool, Option, none, some, [],
  ◌==◌, ◌||◌, ltb, ◌/◌, ◌-◌, update, ◌>>=◌, Bytes, add32, mul32, max_word,
}
use ek_utils.Err.{is_ok}
use ek_utils.Lock.{bare}
use ek_utils.Ring
use ek_utils.Pt.Kernel.{Semaphore, Queue, Kernel}
use ek_utils.Pt.Kept.{IsKept}
use ek_utils.Pt.Objects.{AllOn, objects-IsKept, sem_same}
use ek_utils.Pt.Rewaited.{recv_same, send_same}
use ek_utils.Pt.MsgWake.{msg_destroy-IsKept}
use ek_utils.Pt.SemCalls.{sem_destroy-IsKept}
use ek_utils.Pt.Sem.{sem_init, sem_destroy, sem_deinit_static}
use ek_utils.Pt.Msg.{
  set_msg, ring_or, msg_init_static, msg_create, msg_destroy, msg_deinit_static, msg_release_all,
}

bind_assoc :
    (r : Option Kernel) (f g : Kernel → Option Kernel) → (r >>= λ k. f k >>= g) ≡ ((r >>= f) >>= g)
bind_assoc none f g = refl
bind_assoc (some k) f g = refl

module _ (live on : ℕ → Bool) (k : Kernel) (is : IsKept live on k) where
  -- A semaphore that nobody waits for is written anew.
  pub sem_init-IsKept :
      (s count : ℕ) → (k.sem s).wait_list ≡ [] → IsKept live on (sem_init (some s) count k).1
  unfolding sem_init
  sem_init-IsKept s count empty =
      let q : Semaphore = record { count = count; wait_list = [] } in
      objects-IsKept live on k is (update k.sem s q) k.msg (sem_same k s q (sym empty)) (λ m. refl)
        (λ m. refl)

  pub sem_init-cur : (s count : ℕ) → ((sem_init (some s) count k).1).cur ≡ k.cur
  unfolding sem_init
  sem_init-cur s count = refl

  pub sem_deinit_static-IsKept :
      (s : ℕ)
      → AllOn on (k.sem s).wait_list
      → (k' : Kernel) × (sem_deinit_static (some s) k ≡ some k')
        × IsKept live on k'
        × (k'.cur ≡ k.cur)
  unfolding sem_deinit_static sem_destroy
  sem_deinit_static-IsKept s all = sem_destroy-IsKept live on s k is all

  -- A queue with the same waiting threads.
  same_waits-IsKept :
      (m : ℕ) (q : Queue)
      → q.recv_wait ≡ (k.msg m).recv_wait
      → q.send_wait ≡ (k.msg m).send_wait
      → IsKept live on (set_msg m q k)
  same_waits-IsKept m q r s =
      objects-IsKept live on k is k.sem (update k.msg m q) (λ c. refl)
        (recv_same live on 0 k is m q r) (send_same live on 0 k is m q s)

  pub msg_init_static-IsKept :
      (m size amount : ℕ)
      → (k.msg m).recv_wait ≡ []
      → (k.msg m).send_wait ≡ []
      → let k' = (msg_init_static (some m) size amount k).1 in IsKept live on k' × (k'.cur ≡ k.cur)
  unfolding msg_init_static
  msg_init_static-IsKept m size amount r s =
      let q = k.msg m in
      let (e, rb) = Ring.init_static bare (some q.rb) size amount in
      elim (Bool-cases (is_ok (Ring.init_static bare (some q.rb) size amount).0)) [
        | inl good ↦ rw good (
          same_waits-IsKept m (record { recv_wait = []; send_wait = []; rb = ring_or q.rb rb })
              (sym r) (sym s),
          refl,
        )
        | inr bad ↦ rw bad (is, refl)
      ]

  pub msg_create-IsKept :
      (malloc : ℕ → Option (ℕ × Bytes)) (header size amount : ℕ)
      → ((n m : ℕ) (block : Bytes)
          → malloc n ≡ some (m, block)
          → ((k.msg m).recv_wait ≡ []) × ((k.msg m).send_wait ≡ []))
      → let k' = (msg_create malloc header size amount k).1 in IsKept live on k' × (k'.cur ≡ k.cur)
  unfolding msg_create
  msg_create-IsKept malloc header size amount free = elim (Bool-cases (size == 0 || amount == 0)) [
    | inl zeros ↦ rw zeros (is, refl)
    | inr some_size ↦ elim (Bool-cases (ltb ((max_word - header) / size) amount)) [
      | inl large ↦ rw (some_size, large) (is, refl)
      | inr fits ↦ elim (Option-cases (malloc (add32 header (mul32 amount size)))) [
        | inl refused ↦ rw (some_size, fits, refused) (is, refl)
        | inr ((m, block), given) ↦
            let (r, s) = free _ m block given in
            rw (some_size, fits, given) (same_waits-IsKept m _ (sym r) (sym s), refl)
      ]
    ]
  ]

module _ (live on : ℕ → Bool) (k : Kernel) (is : IsKept live on k) where
  pub msg_deinit_static-IsKept :
      (m : ℕ)
      → AllOn on (k.msg m).recv_wait
      → AllOn on (k.msg m).send_wait
      → (k' : Kernel) × (msg_deinit_static (some m) k ≡ some k')
        × IsKept live on k'
        × (k'.cur ≡ k.cur)
  unfolding msg_deinit_static msg_destroy
  msg_deinit_static-IsKept m r s =
      let (k1, e, kept, same) = msg_destroy-IsKept live on m k is r s in
      let q = k1.msg m in
      (
        _,
        bind_assoc (msg_release_all m (k.msg m).recv_wait k) _ _ ∙ ap (λ x. x >>= closed m) e,
        same_waits-IsKept live on k1 kept m _ refl refl,
        same,
      )
    where
      closed : ℕ → Kernel → Option Kernel
      closed m k =
          let q = k.msg m in
          some (set_msg m (record q { rb = ring_or q.rb (Ring.deinit_static bare (some q.rb)) }) k)
