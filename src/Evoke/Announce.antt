-- ===== src/Evoke/Announce.antt =====
-- src/ek_evoke.c: deliveries, one after the other, neither read the lists of deferred requests nor
-- change them.
use mathlib.Core.Option.{some-injective}
use ek_utils.Base.{
  ℕ, ◌≡◌, refl, sym, ap, ◌∙◌, arith, inl, inr, Bool-cases, Bool, true, false, Option, none, some,
  List, [], ◌∷◌, if◌then◌else◌, ◌>>=◌,
}
use ek_utils.Evoke.State.{Deferred, Evoke}
use ek_utils.Evoke.Events.{
  set_payload, wake_first, wake_all, count_up, deliver_one, deliver_all, publish, broadcast,
}

-- What a deferred request asks for.
abbrev pub announce_one : Deferred → Evoke → Option Evoke
announce_one d k =
    if d.broadcast
    then broadcast (some d.target) d.payload k
    else publish (some d.target) d.payload k

-- The deliveries of the requests, in their order.
unfoldable pub announce : List Deferred → Evoke → Option Evoke
announce [] k = some k
announce (d ∷ ds) k = announce_one d k >>= announce ds

abbrev pub set_pool : List ℕ → List ℕ → Evoke → Evoke
set_pool pending free k = record k { defer_list = pending; free_list = free }

-- The same run, with other lists of pending and free requests in the state.
abbrev pub with_pool : List ℕ → List ℕ → Option Evoke → Option Evoke
with_pool pending free r = r >>= λ k. some (set_pool pending free k)

module _ (pending free : List ℕ) where
  wake_all-pool :
      (e : ℕ) (waits : List ℕ) (k : Evoke)
      → wake_all e waits (set_pool pending free k) ≡ set_pool pending free (wake_all e waits k)
  unfolding wake_all wake_first
  wake_all-pool e [] k = refl
  wake_all-pool e (i ∷ rest) k = wake_all-pool e rest (wake_first e i rest k)

  deliver_one-pool :
      (e : ℕ) (waits : List ℕ) (k : Evoke)
      → deliver_one e waits (set_pool pending free k)
        ≡ set_pool pending free (deliver_one e waits k)
  unfolding deliver_one count_up wake_first
  deliver_one-pool e [] k = refl
  deliver_one-pool e (i ∷ rest) k = refl

  deliver_all-pool :
      (e : ℕ) (waits : List ℕ) (k : Evoke)
      → deliver_all e waits (set_pool pending free k)
        ≡ set_pool pending free (deliver_all e waits k)
  unfolding deliver_all count_up
  deliver_all-pool e [] k = refl
  deliver_all-pool e (i ∷ rest) k = wake_all-pool e (i ∷ rest) k

  -- Both deliveries have this form.
  if-pool :
      (alive : Bool) {x : Evoke} (y : Evoke)
      → x ≡ set_pool pending free y
      → (if alive then some x else none) ≡ with_pool pending free (if alive then some y else none)
  if-pool true y h = ap some h
  if-pool false y h = refl

  pub announce_one-pool :
      (d : Deferred) (k : Evoke)
      → announce_one d (set_pool pending free k) ≡ with_pool pending free (announce_one d k)
  unfolding publish broadcast
  announce_one-pool d k = elim (Bool-cases d.broadcast) [
    | inl a ↦ rw a (
        if-pool (k.event d.target).alive _ (
          deliver_all-pool d.target (k.event d.target).wait_list
            (set_payload d.target d.payload k)))
    | inr a ↦ rw a (
        if-pool (k.event d.target).alive _ (
          deliver_one-pool d.target (k.event d.target).wait_list
            (set_payload d.target d.payload k)))
  ]

  bind-pool :
      (f : Evoke → Option Evoke) (r : Option Evoke)
      → ((k : Evoke) → f (set_pool pending free k) ≡ with_pool pending free (f k))
      → (with_pool pending free r >>= f) ≡ with_pool pending free (r >>= f)
  bind-pool f none h = refl
  bind-pool f (some k) h = h k

  pub announce-pool :
      (ds : List Deferred) (k : Evoke)
      → announce ds (set_pool pending free k) ≡ with_pool pending free (announce ds k)
  unfolding announce
  announce-pool [] k = refl
  announce-pool (d ∷ ds) k =
      ap (λ r. r >>= announce ds) (announce_one-pool d k)
      ∙ bind-pool (announce ds) (announce_one d k) (announce-pool ds)

  -- The last lists count.
  pub with_pool-again :
      (pending' free' : List ℕ) (r : Option Evoke)
      → with_pool pending free (with_pool pending' free' r) ≡ with_pool pending free r
  with_pool-again pending' free' none = refl
  with_pool-again pending' free' (some k) = refl

  -- A run that succeeds with other lists succeeds.
  pub from_pool :
      (r : Option Evoke) (k' : Evoke)
      → with_pool pending free r ≡ some k'
      → (k : Evoke) × (r ≡ some k) × (k' ≡ set_pool pending free k)
  from_pool none k' h = absurd (ground arith)
  from_pool (some k) k' h = (k, refl, some-injective k' (set_pool pending free k) (sym h))
