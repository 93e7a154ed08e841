-- ===== src/Evoke/RoundTests.antt =====
-- A friendly world for the loop of the event scheduler, and a round in it.
use mathlib.Core.Path.{subst}
use mathlib.Core.Option.{some-injective}
use ek_utils.Base.{ℕ, ◌<◌, refl, arith, some, [], ◌∷◌}
use ek_utils.Evoke.State.{Evoke}
use ek_utils.Evoke.Timer.{delay_timer_callback}
use ek_utils.Evoke.Isr.{post}
use ek_utils.Evoke.Loop.{Env, loop_round}
use ek_utils.Evoke.Pool.{IsPooled}
use ek_utils.Evoke.Safe.{IsSafe}
use ek_utils.Evoke.Sound.{set_fifo-IsSafe, IsRing, KeepsSound}
use ek_utils.Evoke.Sleep.{post-IsSafe, delay_timer_callback-IsSafe}
use ek_utils.Evoke.Round.{IsFriendly, loop_round-KeepsSound}
use ek_utils.Evoke.Tests.{four_fields, zeros}
use ek_utils.Evoke.Examples.{
  two_waiting, one_posted, one_posted-IsValid, pub_req-Fits, two_waiting-IsWired,
  two_waiting-IsPooled, note, note-IsQuiet, pub_req, posted_bytes,
}

-- An interrupt posts a request in each light sleep, the timer ends each deep one.
abbrev friendly : Env
friendly = record {
  callback = note;
  light_sleep = λ k. some ((post four_fields pub_req k).1);
  deep_sleep = λ k. some (delay_timer_callback k);
  least = 3;
  layout = four_fields;
}

noted : (i : ℕ) (k : Evoke) → IsPooled k → IsPooled (record k { sleep_lock = i })
noted i k p = record {
  in_order = p.in_order;
  all_there = p.all_there;
  once_free = p.once_free;
  once_pending = p.once_pending;
  apart = p.apart;
}

friendly-IsFriendly : IsFriendly friendly
friendly-IsFriendly = record {
  lays_out = ((λ r. refl), (λ r f. refl));
  quiet = note-IsQuiet;
  pool_kept = λ i w k k' e p. subst IsPooled (some-injective _ _ e) (noted i k p);
  ring_kept = λ i w k k' e r. subst (λ k. IsRing four_fields k.fifo) (some-injective _ _ e) r;
  light = λ k safe ring.
      let (safe', ring') =
        post-IsSafe four_fields pub_req k ((λ r. refl), (λ r f. refl)) pub_req-Fits safe ring in
      ((post four_fields pub_req k).1, refl, safe', ring');
  deep = λ k safe ring.
      let (safe', ring') = delay_timer_callback-IsSafe four_fields k safe ring in
      (delay_timer_callback k, refl, safe', ring');
}

one_posted-IsSafe : IsSafe one_posted
one_posted-IsSafe = set_fifo-IsSafe one_posted.fifo two_waiting (record {
  calm = record {
    wired = two_waiting-IsWired;
    tasks_live = λ i. refl;
    events_live = λ e. refl;
    named = λ i m. ground (arith, m);
  };
  pooled = two_waiting-IsPooled;
})

one_posted-IsRing : IsRing four_fields one_posted.fifo
one_posted-IsRing = record {
  valid = one_posted-IsValid;
  sized = refl;
  reqs = pub_req ∷ [];
  fit = (pub_req-Fits, tt);
  holds = posted_bytes;
}

loop_round-KeepsSound_example :
    (n : ℕ) × ((fuel : ℕ)
      → n < fuel
      → KeepsSound four_fields (loop_round friendly fuel zeros one_posted))
loop_round-KeepsSound_example =
    loop_round-KeepsSound friendly zeros one_posted friendly-IsFriendly refl one_posted-IsSafe
      one_posted-IsRing
