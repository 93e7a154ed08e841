-- ===== src/Evoke/Due.antt =====
-- src/ek_evoke.c: which deferred requests are delivered when the timer has woken the loop.
use mathlib.Core.List.{append_assoc, append-nil}
use ek_utils.Base.{
  ℕ, ◌≡◌, refl, sym, ap, ◌∙◌, arith, inl, inr, Bool-cases, Bool, true, not, some, List, [], ◌∷◌,
  ◌++◌, ltb, ◌∈◌, map, ◌>>=◌, Option, none,
}
use ek_utils.Sorting.{Sorted, keep, keep_all, keep_none}
use ek_utils.Evoke.State.{Evoke}
use ek_utils.Evoke.Timer.{defer_req_free}
use ek_utils.Evoke.Loop.{fire, fire_due}
use ek_utils.Evoke.Announce.{
  announce_one, announce, set_pool, with_pool, announce_one-pool, announce-pool, with_pool-again,
  from_pool,
}
use ek_utils.Evoke.Frame.{publish-Leaves, broadcast-Leaves}
use ek_utils.Evoke.Pool.{earlier}

-- The requests `l` are for events in use.
abbrev pub AllAlive : List ℕ → Evoke → Type 0
AllAlive l k = (r : ℕ) → r ∈ l → (k.event (k.request r).target).alive ≡ true

-- Whether a request is later than the tick for which the timer was set.
abbrev pub is_later : Evoke → ℕ → Bool
is_later k r = ltb k.earliest_tick (k.request r).wakeup_tick

has_head : (r : ℕ) (rest : List ℕ) → r ∈ (r ∷ rest)
has_head r rest = ground arith

has_tail : (c r : ℕ) (rest : List ℕ) → c ∈ rest → c ∈ (r ∷ rest)
has_tail c r rest m = ground (arith, m)

fire_lem :
    (r : ℕ) (rest : List ℕ) (k : Evoke)
    → (k.event (k.request r).target).alive ≡ true
    → (k' : Evoke) × (fire r rest k ≡ some k')
      × (k'.request ≡ k.request)
      × (k'.earliest_tick ≡ k.earliest_tick)
      × (k'.defer_list ≡ rest)
      × (k'.free_list ≡ k.free_list ++ (r ∷ []))
      × ((e : ℕ) → (k'.event e).alive ≡ (k.event e).alive)
unfolding fire defer_req_free
fire_lem r rest k live =
    let d = k.request r in
    let k1 = record k { defer_list = rest } in
    elim (Bool-cases d.broadcast) [
      | inl a ↦
          let (k', runs, s) = broadcast-Leaves d.target d.payload k1 live in
          rw (a, runs)
            (
              _,
              refl,
              s.request_same,
              s.earliest_same,
              s.defer_same,
              ap (λ f. f ++ (r ∷ [])) s.free_same,
              s.alive_same,
            )
      | inr a ↦
          let (k', runs, s) = publish-Leaves d.target d.payload k1 live in
          rw (a, runs)
            (
              _,
              refl,
              s.request_same,
              s.earliest_same,
              s.defer_same,
              ap (λ f. f ++ (r ∷ [])) s.free_same,
              s.alive_same,
            )
    ]

-- The lists that the loop leaves.
fire_due-lists :
    (l : List ℕ) (k : Evoke)
    → k.defer_list ≡ l
    → Sorted (earlier k.request) l
    → AllAlive l k
    → (k' : Evoke) × (fire_due l k ≡ some k')
      × (k'.request ≡ k.request)
      × (k'.defer_list ≡ keep (is_later k) l)
      × (k'.free_list ≡ k.free_list ++ keep (λ r. not (is_later k r)) l)
unfolding fire_due
fire_due-lists [] k e s live = (k, refl, refl, e, sym (append-nil k.free_list))
fire_due-lists (r ∷ rest) k e s live = elim (Bool-cases (is_later k r)) [
  | inl q ↦
      let all : (c : ℕ) → c ∈ rest → is_later k c ≡ true = λ c m. ground (arith, q, s.0 c m) in
      rw
        (
          q,
          keep_all (is_later k) rest all,
          keep_none (λ r. not (is_later k r)) rest (λ c m. ap not (all c m)),
        )
        (k, refl, refl, e, sym (append-nil k.free_list))
  | inr q ↦
      let (k1, runs, reqs, tick, left, freed, alive) =
        fire_lem r rest k (live r (has_head r rest)) in
      let later_same : is_later k1 ≡ is_later k = λ i c. ltb (tick i) (reqs i c).wakeup_tick in
      let (k2, runs2, reqs2, left2, freed2) = fire_due-lists rest k1 left (rw reqs s.1) (λ c m.
        alive (k1.request c).target
        ∙ ap (λ q'. (k.event (q' c).target).alive) reqs
        ∙ live c (has_tail c r rest m)) in
      rw (q, runs)
        (
          k2,
          runs2,
          reqs2 ∙ reqs,
          left2 ∙ ap (λ f. keep f rest) later_same,
          freed2
              ∙ ap (λ f. k1.free_list ++ keep (λ c. not (f c)) rest) later_same
              ∙ ap (λ z. z ++ keep (λ c. not (is_later k c)) rest) freed
              ∙ append_assoc k.free_list (r ∷ []) (keep (λ c. not (is_later k c)) rest),
        )
]

freed-pool :
    (r : ℕ) (rest free : List ℕ) (q : Option Evoke)
    → (with_pool rest free q >>= λ k. some (defer_req_free r k))
      ≡ with_pool rest (free ++ (r ∷ [])) q
unfolding defer_req_free
freed-pool r rest free none = refl
freed-pool r rest free (some k) = refl

-- One round of the loop is the delivery of its request, and moves the request to the pool.
fire-announces :
    (r : ℕ) (rest : List ℕ) (k : Evoke)
    → fire r rest k ≡ with_pool rest (k.free_list ++ (r ∷ [])) (announce_one (k.request r) k)
unfolding fire
fire-announces r rest k =
    ap (λ q. q >>= λ k. some (defer_req_free r k))
      (announce_one-pool rest k.free_list (k.request r) k)
    ∙ freed-pool r rest k.free_list (announce_one (k.request r) k)

-- The requests that are due: those no later than the tick for which the timer was set.
abbrev pub due : Evoke → List ℕ → List ℕ
due k l = keep (λ r. not (is_later k r)) l

-- The loop is the deliveries of the requests that are due, but for the lists.
fire_due-announces :
    (l : List ℕ) (k : Evoke)
    → k.defer_list ≡ l
    → Sorted (earlier k.request) l
    → AllAlive l k
    → fire_due l k
      ≡ with_pool
          (keep (is_later k) l)
          (k.free_list ++ due k l)
          (announce (map k.request (due k l)) k)
unfolding fire_due announce
fire_due-announces [] k e s live =
    ap (λ p. some (set_pool p k.free_list k)) e
    ∙ ap (λ f. some (set_pool [] f k)) (sym (append-nil k.free_list))
fire_due-announces (r ∷ rest) k e s live = elim (Bool-cases (is_later k r)) [
  | inl q ↦
      let all : (c : ℕ) → c ∈ rest → is_later k c ≡ true = λ c m. ground (arith, q, s.0 c m) in
      rw
        (
          q,
          keep_all (is_later k) rest all,
          keep_none (λ r. not (is_later k r)) rest (λ c m. ap not (all c m)),
        )
        (ap (λ p. some (set_pool p k.free_list k)) e
          ∙ ap (λ f. some (set_pool (r ∷ rest) f k)) (sym (append-nil k.free_list)))
  | inr q ↦
      let (k1, runs, reqs, tick, left, freed, alive) =
        fire_lem r rest k (live r (has_head r rest)) in
      let later_same : is_later k1 ≡ is_later k = λ i c. ltb (tick i) (reqs i c).wakeup_tick in
      let f1 = k.free_list ++ (r ∷ []) in
      let one = announce_one (k.request r) k in
      let (kd, told, moved) = from_pool rest f1 one k1 (sym (fire-announces r rest k) ∙ runs) in
      let d = due k rest in
      let ds = map k.request d in
      let pending = keep (is_later k) rest in
      let free = k.free_list ++ (r ∷ d) in
      let more = fire_due-announces rest k1 left (rw reqs s.1) (λ c m.
        alive (k1.request c).target
        ∙ ap (λ q'. (k.event (q' c).target).alive) reqs
        ∙ live c (has_tail c r rest m)) in
      let due_same : due k1 rest ≡ d = ap (λ f. keep (λ c. not (f c)) rest) later_same in
      let asked : map k1.request (due k1 rest) ≡ ds =
        ap (λ q'. map q' (due k1 rest)) reqs ∙ ap (map k.request) due_same in
      let given : k1.free_list ++ due k1 rest ≡ free =
        ap (λ z. z ++ due k1 rest) freed
        ∙ ap (λ z. f1 ++ z) due_same
        ∙ append_assoc k.free_list (r ∷ []) d in
      rw q (
        ap (λ x. x >>= fire_due rest) runs
        ∙ more
        ∙ ap
            (λ f.
              with_pool (keep f rest) (k1.free_list ++ due k1 rest)
                (announce (map k1.request (due k1 rest)) k1))
            later_same
        ∙ ap (λ z. with_pool pending z (announce (map k1.request (due k1 rest)) k1)) given
        ∙ ap (λ z. with_pool pending free (announce z k1)) asked
        ∙ ap (λ z. with_pool pending free (announce ds z)) moved
        ∙ ap (with_pool pending free) (announce-pool rest f1 ds kd)
        ∙ with_pool-again pending free rest f1 (announce ds kd)
        ∙ ap (λ x. with_pool pending free (x >>= announce ds)) (sym told))
]

-- From a list of pending requests in the order of their ticks, all for events in use, the loop ends.
-- It carries out the publications and broadcasts of exactly those that are not later than the tick
-- for which the timer was set, one after the other in that order and each with its own payload, and
-- gives them back to the pool in that order. The others stay pending. But for the two lists, the
-- state is the one that these deliveries leave.
pub fire_due_lem :
    (l : List ℕ) (k : Evoke)
    → k.defer_list ≡ l
    → Sorted (earlier k.request) l
    → AllAlive l k
    → (k' : Evoke) × (fire_due l k ≡ some k')
      × (k'.request ≡ k.request)
      × (k'.defer_list ≡ keep (is_later k) l)
      × (k'.free_list ≡ k.free_list ++ due k l)
      × (kd : Evoke) × (announce (map k.request (due k l)) k ≡ some kd)
      × (k' ≡ set_pool (keep (is_later k) l) (k.free_list ++ due k l) kd)
fire_due_lem l k e s live =
    let (k', runs, reqs, left, freed) = fire_due-lists l k e s live in
    let (kd, told, same) =
      from_pool (keep (is_later k) l) (k.free_list ++ due k l)
        (announce (map k.request (due k l)) k) k' (sym (fire_due-announces l k e s live) ∙ runs) in
    (k', runs, reqs, left, freed, kd, told, same)
