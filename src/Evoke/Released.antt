-- ===== src/Evoke/Released.antt =====
-- src/ek_evoke.c: a task that leaves its list, and what is created, reset or freed.
use mathlib.Core.Path.{subst}
use ek_utils.Base.{
  ℕ, ◌≡◌, ◌≢◌, refl, arith, inl, inr, Bool-cases, true, false, none, some, List, [], ◌∷◌, ◌==◌, has,
  erase, ◌∈◌, ◌∉◌,
}
use ek_utils.Dlist.Chain.{Distinct, has-erase_all, Distinct-erase}
use ek_utils.Evoke.State.{idle, waiting, ready, Task, Evoke}
use ek_utils.Evoke.Events.{set_task, set_event, let_go, event_deinit_static, event_destroy}
use ek_utils.Evoke.Wired.{IsWired, still_there, event_fields-IsWired}

-- The lists `l` and `l'` differ in one task alone.
pub record Without (i : ℕ) (l l' : List ℕ) : Type 0 where
  pub gone : i ∉ l'
  pub rest_same : (c : ℕ) → c ≢ i → has c l' ≡ has c l
  pub once : Distinct l'

pub first-Without : (i : ℕ) (rest : List ℕ) → Distinct (i ∷ rest) → Without i (i ∷ rest) rest
first-Without i rest d = record { gone = d.0; rest_same = λ c ne. ground (arith, ne); once = d.1 }

pub erase-Without : (i : ℕ) (l : List ℕ) → Distinct l → Without i l (erase i l)
erase-Without i l d = record {
  gone = ground (arith, has-erase_all i i l d);
  rest_same = λ c ne. ground (arith, ne, has-erase_all c i l d);
  once = Distinct-erase i l d;
}

pub none-Without : (i : ℕ) (l : List ℕ) → Distinct l → i ∉ l → Without i l l
none-Without i l d out = record { gone = out; rest_same = λ c ne. refl; once = d }

-- A task, with new fields, that neither waits nor is ready, or is freed.
abbrev pub IsOut : Task → Type 0
IsOut t = (t.alive ≡ true → t.state ≢ ready) × (t.alive ≡ true → t.state ≢ waiting)

-- The task leaves the ready list, or was in no list.
pub leave_ready-IsWired :
    (i : ℕ) (t : Task) (l : List ℕ) (k : Evoke)
    → IsWired k
    → IsOut t
    → Without i k.ready_list l
    → ((e : ℕ) → i ∉ (k.event e).wait_list)
    → IsWired (set_task i t (record k { ready_list = l }))
leave_ready-IsWired i t l k w out less off = record {
  at_event = λ e c m. ground (arith, off e, w.at_event e c);
  waits = λ e c m. ground (arith, off e, w.waits e c);
  readies = λ c m. ground (arith, less.gone, less.rest_same c, w.readies c);
  once_ready = less.once;
  once_waiting = w.once_waiting;
  ready_there = λ c u s. ground (arith, less.rest_same c, out.0, w.ready_there c);
  wait_there = λ c u s.
      let ne : (c == i) ≡ false = ground (arith, out.1) in
      still_there c k (set_task i t (record k { ready_list = l })) w (ground arith) (ground arith)
        (ground arith) (λ e' m. m);
  live_ready = λ c m. ground (arith, less.gone, less.rest_same c, w.live_ready c);
  live_waiter = λ e c m. ground (arith, off e, w.live_waiter e c);
  live_event = w.live_event;
}

-- The task leaves the list of the event that it waits for.
pub leave_waiting-IsWired :
    (i e : ℕ) (t : Task) (l : List ℕ) (k : Evoke)
    → IsWired k
    → IsOut t
    → i ∈ (k.event e).wait_list
    → Without i (k.event e).wait_list l
    → let v = k.event e in IsWired (set_task i t (set_event e (record v { wait_list = l }) k))
leave_waiting-IsWired i e t l k w out mine less =
    let v = k.event e in
    let k' = set_task i t (set_event e (record v { wait_list = l }) k) in
    let here : (k.task i).wait_event ≡ some e = w.at_event e i mine in
    let still : (k.task i).state ≡ waiting = w.waits e i mine in
    record {
      at_event = λ e' c m. ground (arith, less.gone, less.rest_same c, w.at_event e' c);
      waits = λ e' c m. ground (arith, less.gone, less.rest_same c, w.waits e' c, w.at_event e' c);
      readies = λ c m. ground (arith, w.readies c);
      once_ready = w.once_ready;
      once_waiting = λ e'. elim (Bool-cases (e' == e)) [
        | inl q ↦ rw q less.once
        | inr q ↦ rw q (w.once_waiting e')
      ];
      ready_there = λ c u s. ground (arith, out.0, w.ready_there c);
      wait_there = λ c u s.
          let ne : (c == i) ≡ false = ground (arith, out.1) in
          still_there c k k' w (ground arith) (ground arith) (ground arith)
            (λ e' m. ground (arith, less.rest_same c));
      live_ready = λ c m. ground (arith, w.readies c, w.live_ready c);
      live_waiter = λ e' c m.
          ground (arith, less.gone, less.rest_same c, w.live_waiter e' c, w.at_event e' c);
      live_event = λ e' c m. ground (arith, less.gone, less.rest_same c, w.live_event e' c);
    }

-- All the tasks that wait for an event leave its list and are idle.
pub let_go-IsWired :
    (e : ℕ) (waits : List ℕ) (k : Evoke)
    → IsWired k
    → (k.event e).wait_list ≡ waits
    → IsWired (let_go e waits k) × (((let_go e waits k).event e).wait_list ≡ [])
unfolding let_go
let_go-IsWired e [] k w l = (w, l)
let_go-IsWired e (i ∷ rest) k w l =
    let d : Distinct (i ∷ rest) = subst Distinct l (w.once_waiting e) in
    let v = k.event e in
    let t = k.task i in
    let t' : Task = record t { wait_event = none; state = idle } in
    let_go-IsWired e rest (set_task i t' (set_event e (record v { wait_list = rest }) k))
      (leave_waiting-IsWired i e t' rest k w ((λ u. ground arith), (λ u. ground arith))
        (ground (arith, l)) (rw l (first-Without i rest d)))
      (ground arith)

pub deinit-IsWired : (e : ℕ) (k : Evoke) → IsWired k → IsWired (event_deinit_static (some e) k)
unfolding event_deinit_static
deinit-IsWired e k w =
    let k1 = let_go e (k.event e).wait_list k in
    let v = k1.event e in
    let (w1, empty) = let_go-IsWired e (k.event e).wait_list k w refl in
    event_fields-IsWired e (record v { count = 0; payload = 0 }) k1 w1 refl (w1.live_event e)

pub destroy-IsWired : (e : ℕ) (k : Evoke) → IsWired k → IsWired (event_destroy (some e) k)
unfolding event_destroy
destroy-IsWired e k w =
    let k1 = let_go e (k.event e).wait_list k in
    let v = k1.event e in
    let (w1, empty) = let_go-IsWired e (k.event e).wait_list k w refl in
    event_fields-IsWired e (record v { alive = false }) k1 w1 refl (λ i m. ground (arith, empty))
