-- ===== src/Evoke/Names.antt =====
-- src/ek_evoke.c: a delivery leaves the tasks in use and the events that they wait for as they are.
use ek_utils.Base.{ℕ, ◌≡◌, refl, ◌∙◌, arith, true, some, List, [], ◌∷◌}
use ek_utils.Evoke.State.{Evoke}
use ek_utils.Evoke.Events.{
  set_payload, wake_first, wake_all, count_up, deliver_one, deliver_all, publish, broadcast,
}

pub record SameNames (k k' : Evoke) : Type 0 where
  pub name_same : (i : ℕ) → (k'.task i).wait_event ≡ (k.task i).wait_event
  pub live_same : (i : ℕ) → (k'.task i).alive ≡ (k.task i).alive

wake_first-SameNames : (e i : ℕ) (rest : List ℕ) (k : Evoke) → SameNames k (wake_first e i rest k)
unfolding wake_first
wake_first-SameNames e i rest k = record {
  name_same = λ c. ground arith;
  live_same = λ c. ground arith;
}

wake_all-SameNames : (e : ℕ) (waits : List ℕ) (k : Evoke) → SameNames k (wake_all e waits k)
unfolding wake_all
wake_all-SameNames e [] k = record { name_same = λ c. refl; live_same = λ c. refl }
wake_all-SameNames e (i ∷ rest) k =
    let first = wake_first-SameNames e i rest k in
    let more = wake_all-SameNames e rest (wake_first e i rest k) in
    record {
      name_same = λ c. more.name_same c ∙ first.name_same c;
      live_same = λ c. more.live_same c ∙ first.live_same c;
    }

deliver_one-SameNames : (e : ℕ) (waits : List ℕ) (k : Evoke) → SameNames k (deliver_one e waits k)
unfolding deliver_one count_up
deliver_one-SameNames e [] k = record { name_same = λ c. refl; live_same = λ c. refl }
deliver_one-SameNames e (i ∷ rest) k = wake_first-SameNames e i rest k

deliver_all-SameNames : (e : ℕ) (waits : List ℕ) (k : Evoke) → SameNames k (deliver_all e waits k)
unfolding deliver_all count_up
deliver_all-SameNames e [] k = record { name_same = λ c. refl; live_same = λ c. refl }
deliver_all-SameNames e (i ∷ rest) k = wake_all-SameNames e (i ∷ rest) k

payload-SameNames :
    (e payload : ℕ) {k k' : Evoke} → SameNames (set_payload e payload k) k' → SameNames k k'
payload-SameNames e payload s = record { name_same = s.name_same; live_same = s.live_same }

pub publish-SameNames :
    (e payload : ℕ) (k : Evoke)
    → (k.event e).alive ≡ true
    → (k' : Evoke) × (publish (some e) payload k ≡ some k') × SameNames k k'
unfolding publish
publish-SameNames e payload k live = (
  deliver_one e _ (set_payload e payload k),
  rw live refl,
  payload-SameNames e payload
      (deliver_one-SameNames e (k.event e).wait_list (set_payload e payload k)),
)

pub broadcast-SameNames :
    (e payload : ℕ) (k : Evoke)
    → (k.event e).alive ≡ true
    → (k' : Evoke) × (broadcast (some e) payload k ≡ some k') × SameNames k k'
unfolding broadcast
broadcast-SameNames e payload k live = (
  deliver_all e _ (set_payload e payload k),
  rw live refl,
  payload-SameNames e payload
      (deliver_all-SameNames e (k.event e).wait_list (set_payload e payload k)),
)
