-- ===== src/Evoke/Safe.antt =====
-- src/ek_evoke.c: while nothing is freed, a delivery keeps the scheduler in order.
use mathlib.Core.Path.{subst}
use mathlib.Core.Option.{some-injective}
use ek_utils.Base.{
  ℕ, ◌≡◌, sym, ◌∙◌, arith, inl, inr, Bool-cases, true, Option, some, List, [], ◌∷◌, has, ◌∈◌,
}
use ek_utils.Dlist.Chain.{has-append}
use ek_utils.Evoke.State.{Evoke}
use ek_utils.Evoke.Events.{publish, broadcast}
use ek_utils.Evoke.Deliver.{Delivered, publish_lem, broadcast_lem, first_only}
use ek_utils.Evoke.Wired.{IsWired}
use ek_utils.Evoke.Calls.{publish-Keeps, broadcast-Keeps}
use ek_utils.Evoke.Frame.{SamePool, publish-Leaves, broadcast-Leaves}
use ek_utils.Evoke.Names.{SameNames, publish-SameNames, broadcast-SameNames}
use ek_utils.Evoke.Pool.{IsPooled, SamePool-IsPooled}

-- The lists and the tasks agree, nothing was freed, and a task that is ready has an event.
pub record IsCalm (k : Evoke) : Type 0 where
  pub wired : IsWired k
  pub tasks_live : (i : ℕ) → (k.task i).alive ≡ true
  pub events_live : (e : ℕ) → (k.event e).alive ≡ true
  pub named : (i : ℕ) → i ∈ k.ready_list → (e : ℕ) × ((k.task i).wait_event ≡ some e)

-- And so is the pool of deferred requests.
pub record IsSafe (k : Evoke) : Type 0 where
  pub calm : IsCalm k
  pub pooled : IsPooled k

-- Two results of one call are the same.
pub agree :
    {r : Option Evoke} {a b : Evoke} (P : Evoke → Type 0) → r ≡ some a → r ≡ some b → P b → P a
agree {a} {b} P p q h = subst P (some-injective b a (sym q ∙ p)) h

-- A delivery that succeeds and leaves a safe state.
abbrev pub KeepsSafe : Option Evoke → Type 0
KeepsSafe r = (k' : Evoke) × (r ≡ some k') × IsSafe k'

-- It also leaves the pool alone.
abbrev pub KeepsCalm : Evoke → Option Evoke → Type 0
KeepsCalm k r = (k' : Evoke) × (r ≡ some k') × IsCalm k' × SamePool k k'

woken-IsCalm :
    (e payload : ℕ) (woken left : List ℕ) (k k' : Evoke)
    → IsCalm k
    → ((c : ℕ) → c ∈ woken → c ∈ (k.event e).wait_list)
    → IsWired k'
    → SamePool k k'
    → SameNames k k'
    → Delivered e payload woken left k k'
    → IsCalm k'
woken-IsCalm e payload woken left k k' safe from w pool names d = record {
  wired = w;
  tasks_live = λ i. names.live_same i ∙ safe.tasks_live i;
  events_live = λ c. pool.alive_same c ∙ safe.events_live c;
  named = λ i m. elim (Bool-cases (has i woken)) [
    | inl q ↦ (e, names.name_same i ∙ (safe.wired).at_event e i (from i q))
    | inr q ↦
        let old : i ∈ k.ready_list =
          ground (arith, m, d.ready_behind, has-append i k.ready_list woken, q) in
        let (e', at) = safe.named i old in (e', names.name_same i ∙ at)
  ];
}

first_waits : (c : ℕ) (l : List ℕ) → c ∈ first_only l → c ∈ l
first_waits c [] m = m
first_waits c (i ∷ l) m = ground (arith, m)

pub publish-IsCalm :
    (e payload : ℕ) (k : Evoke) → IsCalm k → KeepsCalm k (publish (some e) payload k)
publish-IsCalm e payload k safe =
    let live = safe.events_live e in
    let (k', runs, d) = publish_lem e payload k live in
    let (_, runs_w, w) = publish-Keeps e payload k live safe.wired in
    let (_, runs_p, pool) = publish-Leaves e payload k live in
    let (_, runs_n, names) = publish-SameNames e payload k live in
    (
      k',
      runs,
      woken-IsCalm e payload _ _ k k' safe (λ c. first_waits c (k.event e).wait_list)
          (agree IsWired runs runs_w w) (agree (SamePool k) runs runs_p pool)
          (agree (SameNames k) runs runs_n names) d,
      agree (SamePool k) runs runs_p pool,
    )

pub broadcast-IsCalm :
    (e payload : ℕ) (k : Evoke) → IsCalm k → KeepsCalm k (broadcast (some e) payload k)
broadcast-IsCalm e payload k safe =
    let live = safe.events_live e in
    let (k', runs, d) = broadcast_lem e payload k live in
    let (_, runs_w, w) = broadcast-Keeps e payload k live safe.wired in
    let (_, runs_p, pool) = broadcast-Leaves e payload k live in
    let (_, runs_n, names) = broadcast-SameNames e payload k live in
    (
      k',
      runs,
      woken-IsCalm e payload _ _ k k' safe (λ c m. m) (agree IsWired runs runs_w w)
          (agree (SamePool k) runs runs_p pool) (agree (SameNames k) runs runs_n names) d,
      agree (SamePool k) runs runs_p pool,
    )

pub KeepsCalm-KeepsSafe : {k : Evoke} {r : Option Evoke} → IsSafe k → KeepsCalm k r → KeepsSafe r
KeepsCalm-KeepsSafe safe (k', runs, calm, pool) =
    (k', runs, record { calm = calm; pooled = SamePool-IsPooled pool safe.pooled })
