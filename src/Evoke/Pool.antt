-- ===== src/Evoke/Pool.antt =====
-- src/ek_evoke.c: the pool of deferred requests, and the list of those that are pending.
use mathlib.Core.Path.{subst}
use ek_utils.Base.{
  ℕ, suc, ◌+◌, ◌≡◌, refl, ap, arith, inl, inr, Bool-cases, Bool, true, some, List, [], ◌∷◌, ◌==◌,
  ltb, leb, has, ◌∈◌, ◌∉◌, update, length,
}
use ek_utils.Dlist.Chain.{Distinct}
use ek_utils.Sorting.{Sorted}
use ek_utils.Evoke.State.{Deferred, Evoke, max_defer_req}
use ek_utils.Evoke.Frame.{SamePool, publish-Leaves, broadcast-Leaves}
use ek_utils.Evoke.Timer.{insert_by_tick, enqueue_deferred, defer_req_malloc, defer_later, defer}

-- Whether a request is due before another.
abbrev pub earlier : (ℕ → Deferred) → ℕ → ℕ → Bool
earlier q r x = ltb (q r).wakeup_tick (q x).wakeup_tick

-- Each request of the pool is free or pending, not both and not twice, and the pending ones stand in
-- the order in which they are due.
pub record IsPooled (k : Evoke) : Type 0 where
  pub in_order : Sorted (earlier k.request) k.defer_list
  pub all_there : length k.free_list + length k.defer_list ≡ max_defer_req
  pub once_free : Distinct k.free_list
  pub once_pending : Distinct k.defer_list
  pub apart : (r : ℕ) → r ∈ k.free_list → r ∉ k.defer_list

module _ (q : ℕ → Deferred) where
  has-insert_by_tick : (c r : ℕ) (xs : List ℕ) → has c (insert_by_tick q r xs) ≡ has c (r ∷ xs)
  unfolding insert_by_tick
  has-insert_by_tick c r [] = refl
  has-insert_by_tick c r (x ∷ xs) = ground (arith, has-insert_by_tick c r xs)

  length-insert_by_tick : (r : ℕ) (xs : List ℕ) → length (insert_by_tick q r xs) ≡ suc (length xs)
  unfolding insert_by_tick
  length-insert_by_tick r [] = refl
  length-insert_by_tick r (x ∷ xs) = ground (arith, length-insert_by_tick r xs)

  insert_by_tick-Distinct :
      (r : ℕ) (xs : List ℕ) → Distinct xs → r ∉ xs → Distinct (insert_by_tick q r xs)
  unfolding insert_by_tick
  insert_by_tick-Distinct r [] d n = (refl, tt)
  insert_by_tick-Distinct r (x ∷ xs) d n =
      elim (Bool-cases (leb (q r).wakeup_tick (q x).wakeup_tick)) [
        | inl e ↦ rw e (n, d)
        | inr e ↦ rw e (
          ground (arith, has-insert_by_tick x r xs, n, d.0),
          insert_by_tick-Distinct r xs d.1 (ground arith),
        )
      ]

  insert_by_tick-Sorted :
      (r : ℕ) (xs : List ℕ) → Sorted (earlier q) xs → Sorted (earlier q) (insert_by_tick q r xs)
  unfolding insert_by_tick
  insert_by_tick-Sorted r [] s = ((λ c m. ground (arith, m)), tt)
  insert_by_tick-Sorted r (x ∷ xs) s = elim (Bool-cases (leb (q r).wakeup_tick (q x).wakeup_tick)) [
    | inl e ↦ rw e ((λ c m. ground (arith, m, s.0 c)), s)
    | inr e ↦ rw e (
      (λ c m. ground (arith, has-insert_by_tick c r xs, m, s.0 c)),
      insert_by_tick-Sorted r xs s.1,
    )
  ]

-- The order is a matter of the ticks of the members only.
Sorted-frame :
    (p q : ℕ → Deferred) (xs : List ℕ)
    → ((c : ℕ) → c ∈ xs → q c ≡ p c)
    → Sorted (earlier p) xs
    → Sorted (earlier q) xs
Sorted-frame p q [] same s = tt
Sorted-frame p q (x ∷ xs) same s = (
  (λ c m. ground (arith, same x, same c, s.0 c)),
  Sorted-frame p q xs (λ c m. same c (ground arith)) s.1,
)

defer_later-IsPooled :
    (d : Deferred) (free : List ℕ) (k : Evoke)
    → k.free_list ≡ free
    → IsPooled k
    → IsPooled (defer_later d (defer_req_malloc free k) k)
unfolding defer_later defer_req_malloc enqueue_deferred
defer_later-IsPooled d [] k f p = p
defer_later-IsPooled d (r ∷ rest) k f p =
    let mine : r ∈ k.free_list = ground (arith, f) in
    let out : r ∉ k.defer_list = p.apart r mine in
    let q = update k.request r d in
    let free : Distinct (r ∷ rest) = subst Distinct f p.once_free in
    record {
      in_order =
          insert_by_tick-Sorted q r k.defer_list
            (Sorted-frame k.request q k.defer_list (λ c m. ground (arith, out, m)) p.in_order);
      all_there = omega (arith, length-insert_by_tick q r k.defer_list, p.all_there, ap length f);
      once_free = free.1;
      once_pending = insert_by_tick-Distinct q r k.defer_list p.once_pending out;
      apart = λ c m. ground (arith, has-insert_by_tick q c r k.defer_list, m, free.0, p.apart c, f);
    }

pub SamePool-IsPooled : {k k' : Evoke} → SamePool k k' → IsPooled k → IsPooled k'
SamePool-IsPooled s p = record {
  in_order = rw (s.request_same, s.defer_same) p.in_order;
  all_there = rw (s.free_same, s.defer_same) p.all_there;
  once_free = rw s.free_same p.once_free;
  once_pending = rw s.defer_same p.once_pending;
  apart = rw (s.free_same, s.defer_same) p.apart;
}

-- `ek_evoke_event_defer` for an event in use succeeds and keeps the pool: each request is free or
-- pending, not both and not twice, none is lost, and those pending stand in the order of their ticks.
pub defer-IsPooled :
    (e payload delay : ℕ) (all : Bool) (k : Evoke)
    → (k.event e).alive ≡ true
    → IsPooled k
    → (k' : Evoke) × (defer (some e) payload delay all k ≡ some k') × IsPooled k'
unfolding defer
defer-IsPooled e payload delay all k live p = elim (Bool-cases (delay == 0)) [
  | inr q ↦ rw q (_, refl, defer_later-IsPooled _ k.free_list k refl p)
  | inl q ↦ elim (Bool-cases all) [
    | inl a ↦
        let (k', runs, s) = broadcast-Leaves e payload k live in
        rw (q, a) (k', runs, SamePool-IsPooled s p)
    | inr a ↦
        let (k', runs, s) = publish-Leaves e payload k live in
        rw (q, a) (k', runs, SamePool-IsPooled s p)
  ]
]
