-- ===== src/Evoke/Frame.antt =====
-- src/ek_evoke.c: what the delivery of an event leaves alone.
use ek_utils.Base.{ℕ, ◌≡◌, refl, ◌∙◌, arith, true, Option, some, List, [], ◌∷◌}
use ek_utils.Evoke.State.{Evoke}
use ek_utils.Evoke.Events.{
  set_payload, wake_first, wake_all, count_up, deliver_one, deliver_all, publish, broadcast,
}

-- The deferred requests and the requests of interrupts are the same, and what was in use still is.
pub record SamePool (k k' : Evoke) : Type 0 where
  pub request_same : k'.request ≡ k.request
  pub free_same : k'.free_list ≡ k.free_list
  pub defer_same : k'.defer_list ≡ k.defer_list
  pub earliest_same : k'.earliest_tick ≡ k.earliest_tick
  pub fifo_same : k'.fifo ≡ k.fifo
  pub alive_same : (e : ℕ) → (k'.event e).alive ≡ (k.event e).alive

SamePool-trans : {a b c : Evoke} → SamePool a b → SamePool b c → SamePool a c
SamePool-trans p q = record {
  request_same = q.request_same ∙ p.request_same;
  free_same = q.free_same ∙ p.free_same;
  defer_same = q.defer_same ∙ p.defer_same;
  earliest_same = q.earliest_same ∙ p.earliest_same;
  fifo_same = q.fifo_same ∙ p.fifo_same;
  alive_same = λ e. q.alive_same e ∙ p.alive_same e;
}

set_payload-SamePool : (e payload : ℕ) (k : Evoke) → SamePool k (set_payload e payload k)
set_payload-SamePool e payload k = record {
  request_same = refl;
  free_same = refl;
  defer_same = refl;
  earliest_same = refl;
  fifo_same = refl;
  alive_same = λ c. ground arith;
}

count_up-SamePool : (e : ℕ) (k : Evoke) → SamePool k (count_up e k)
unfolding count_up
count_up-SamePool e k = record {
  request_same = refl;
  free_same = refl;
  defer_same = refl;
  earliest_same = refl;
  fifo_same = refl;
  alive_same = λ c. ground arith;
}

wake_first-SamePool : (e i : ℕ) (rest : List ℕ) (k : Evoke) → SamePool k (wake_first e i rest k)
unfolding wake_first
wake_first-SamePool e i rest k = record {
  request_same = refl;
  free_same = refl;
  defer_same = refl;
  earliest_same = refl;
  fifo_same = refl;
  alive_same = λ c. ground arith;
}

same : (k : Evoke) → SamePool k k
same k = record {
  request_same = refl;
  free_same = refl;
  defer_same = refl;
  earliest_same = refl;
  fifo_same = refl;
  alive_same = λ c. refl;
}

wake_all-SamePool : (e : ℕ) (waits : List ℕ) (k : Evoke) → SamePool k (wake_all e waits k)
unfolding wake_all
wake_all-SamePool e [] k = same k
wake_all-SamePool e (i ∷ rest) k =
    SamePool-trans (wake_first-SamePool e i rest k)
      (wake_all-SamePool e rest (wake_first e i rest k))

deliver_one-SamePool : (e : ℕ) (waits : List ℕ) (k : Evoke) → SamePool k (deliver_one e waits k)
unfolding deliver_one
deliver_one-SamePool e [] k = count_up-SamePool e k
deliver_one-SamePool e (i ∷ rest) k = wake_first-SamePool e i rest k

deliver_all-SamePool : (e : ℕ) (waits : List ℕ) (k : Evoke) → SamePool k (deliver_all e waits k)
unfolding deliver_all
deliver_all-SamePool e [] k = count_up-SamePool e k
deliver_all-SamePool e (i ∷ rest) k = wake_all-SamePool e (i ∷ rest) k

-- A delivery that succeeds and leaves the pool alone.
abbrev pub Leaves : Evoke → Option Evoke → Type 0
Leaves k r = (k' : Evoke) × (r ≡ some k') × SamePool k k'

pub publish-Leaves :
    (e payload : ℕ) (k : Evoke) → (k.event e).alive ≡ true → Leaves k (publish (some e) payload k)
unfolding publish
publish-Leaves e payload k live = (
  deliver_one e _ (set_payload e payload k),
  rw live refl,
  SamePool-trans (set_payload-SamePool e payload k)
      (deliver_one-SamePool e (k.event e).wait_list (set_payload e payload k)),
)

pub broadcast-Leaves :
    (e payload : ℕ) (k : Evoke) → (k.event e).alive ≡ true → Leaves k (broadcast (some e) payload k)
unfolding broadcast
broadcast-Leaves e payload k live = (
  deliver_all e _ (set_payload e payload k),
  rw live refl,
  SamePool-trans (set_payload-SamePool e payload k)
      (deliver_all-SamePool e (k.event e).wait_list (set_payload e payload k)),
)
