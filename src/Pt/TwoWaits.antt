-- ===== src/Pt/TwoWaits.antt =====
-- src/ek_picothread.c: the two lists of a message queue, of those that receive and that send.
use ek_utils.Base.{
  refl_eq, ℕ, ◌≡◌, ◌⊎◌, refl, sym, ap, ◌∙◌, arith, inl, inr, Bool-cases, Option, none, some, List,
  ◌==◌, ◌∈◌, ◌∉◌, erase, update,
}
use ek_utils.Pt.Kernel.{Thread}
use ek_utils.Pt.Queues.{insert_by_prio}
use ek_utils.Pt.Waits.{
  for_it, for_it-some, IsQueued, Changed, IsQueued-same, IsQueued-remove, IsQueued-wait,
}

-- The threads of two families of lists, each of which waits in one of them.
abbrev pub EitherOf : Option ℕ → Option ℕ → Option ℕ → Type 0
EitherOf a b o = ((a ≡ none) × (o ≡ b)) ⊎ ((b ≡ none) × (o ≡ a))

-- Each of the two lists links the threads that wait there, and once.
pub record IsQueuedTwice (recv send : ℕ → List ℕ) (on : ℕ → Option ℕ) : Type 0 where
  pub receives : ℕ → Option ℕ
  pub sends : ℕ → Option ℕ
  pub receiving : IsQueued recv receives
  pub sending : IsQueued send sends
  pub either : (c : ℕ) → EitherOf (receives c) (sends c) (on c)

-- The same families.
abbrev pub Alike : (ℕ → List ℕ) → (ℕ → List ℕ) → Type 0
Alike new old = (c : ℕ) → new c ≡ old c

module _ (recv send : ℕ → List ℕ) (on : ℕ → Option ℕ) (is : IsQueuedTwice recv send on) where
  pub IsQueuedTwice-same :
      (recv' send' : ℕ → List ℕ) (on' : ℕ → Option ℕ)
      → Alike recv' recv
      → Alike send' send
      → ((c : ℕ) → on' c ≡ on c)
      → IsQueuedTwice recv' send' on'
  IsQueuedTwice-same recv' send' on' r s o = record {
    receives = is.receives;
    sends = is.sends;
    receiving = IsQueued-same recv is.receives is.receiving recv' is.receives r (λ c. refl);
    sending = IsQueued-same send is.sends is.sending send' is.sends s (λ c. refl);
    either =
        λ c. elim (is.either c) [ inl e ↦ inl (e.0, o c ∙ e.1) | inr e ↦ inr (e.0, o c ∙ e.1) ];
  }

  -- Where a thread that waits is found.
  pub twice_at :
      (m i : ℕ)
      → on i ≡ some m
      → ((i ∈ recv m) × (is.receives i ≡ some m) × (is.sends i ≡ none))
        ⊎ ((i ∉ recv m) × (i ∈ send m) × (is.sends i ≡ some m) × (is.receives i ≡ none))
  twice_at m i at = elim (is.either i) [
    | inl e ↦
        let s : is.sends i ≡ some m = sym e.1 ∙ at in
        inr (
          is.receiving.listed m i ∙ ap (λ o. for_it o m) e.0,
          is.sending.listed m i ∙ ap (λ o. for_it o m) s ∙ refl_eq m,
          s,
          e.0,
        )
    | inr e ↦
        let r : is.receives i ≡ some m = sym e.1 ∙ at in
        inl (is.receiving.listed m i ∙ ap (λ o. for_it o m) r ∙ refl_eq m, r, e.0)
  ]

  -- The thread of a list waits for the object of the list.
  pub of_recv : (m c : ℕ) → c ∈ recv m → on c ≡ some m
  of_recv m c h =
      let r : is.receives c ≡ some m =
        for_it-some (is.receives c) m (sym (is.receiving.listed m c) ∙ h) in
      elim (is.either c) [ inl e ↦ absurd (cc (e.0, r)) | inr e ↦ e.1 ∙ r ]

  pub of_send : (m c : ℕ) → c ∈ send m → on c ≡ some m
  of_send m c h =
      let s : is.sends c ≡ some m = for_it-some (is.sends c) m (sym (is.sending.listed m c) ∙ h) in
      elim (is.either c) [ inl e ↦ e.1 ∙ s | inr e ↦ absurd (cc (e.0, s)) ]

  pub not_twice :
      (m i : ℕ)
      → on i ≡ none
      → (i ∉ recv m) × (i ∉ send m) × (is.receives i ≡ none) × (is.sends i ≡ none)
  not_twice m i at = elim (is.either i) [
    | inl e ↦
        let s : is.sends i ≡ none = sym e.1 ∙ at in
        (
          is.receiving.listed m i ∙ ap (λ o. for_it o m) e.0,
          is.sending.listed m i ∙ ap (λ o. for_it o m) s,
          e.0,
          s,
        )
    | inr e ↦
        let r : is.receives i ≡ none = sym e.1 ∙ at in
        (
          is.receiving.listed m i ∙ ap (λ o. for_it o m) r,
          is.sending.listed m i ∙ ap (λ o. for_it o m) e.0,
          r,
          e.0,
        )
  ]

  pub IsQueuedTwice-remove_recv :
      (recv' send' : ℕ → List ℕ) (m i : ℕ)
      → is.receives i ≡ some m
      → is.sends i ≡ none
      → Changed recv' recv m (erase i (recv m))
      → Alike send' send
      → IsQueuedTwice recv' send' (update on i none)
  IsQueuedTwice-remove_recv recv' send' m i at idle ch s = record {
    receives = update is.receives i none;
    sends = is.sends;
    receiving = IsQueued-remove recv is.receives is.receiving recv' m i at ch;
    sending = IsQueued-same send is.sends is.sending send' is.sends s (λ c. refl);
    either = λ c. elim (Bool-cases (c == i)) [
      | inl e ↦ let eq : c ≡ i = ground arith in rw e (inr (ap is.sends eq ∙ idle, refl))
      | inr e ↦ rw e (is.either c)
    ];
  }

  pub IsQueuedTwice-remove_send :
      (recv' send' : ℕ → List ℕ) (m i : ℕ)
      → is.sends i ≡ some m
      → is.receives i ≡ none
      → Alike recv' recv
      → Changed send' send m (erase i (send m))
      → IsQueuedTwice recv' send' (update on i none)
  IsQueuedTwice-remove_send recv' send' m i at idle r ch = record {
    receives = is.receives;
    sends = update is.sends i none;
    receiving = IsQueued-same recv is.receives is.receiving recv' is.receives r (λ c. refl);
    sending = IsQueued-remove send is.sends is.sending send' m i at ch;
    either = λ c. elim (Bool-cases (c == i)) [
      | inl e ↦ let eq : c ≡ i = ground arith in rw e (inl (ap is.receives eq ∙ idle, refl))
      | inr e ↦ rw e (is.either c)
    ];
  }

  pub IsQueuedTwice-wait_recv :
      (recv' send' : ℕ → List ℕ) (t : ℕ → Thread) (m i : ℕ)
      → on i ≡ none
      → Changed recv' recv m (insert_by_prio t i (recv m))
      → Alike send' send
      → IsQueuedTwice recv' send' (update on i (some m))
  IsQueuedTwice-wait_recv recv' send' t m i at ch s =
      let idle = not_twice m i at in
      record {
        receives = update is.receives i (some m);
        sends = is.sends;
        receiving = IsQueued-wait recv is.receives is.receiving recv' t m i idle.2 ch;
        sending = IsQueued-same send is.sends is.sending send' is.sends s (λ c. refl);
        either = λ c. elim (Bool-cases (c == i)) [
          | inl e ↦ let eq : c ≡ i = ground arith in rw e (inr (ap is.sends eq ∙ idle.3, refl))
          | inr e ↦ rw e (is.either c)
        ];
      }

  pub IsQueuedTwice-wait_send :
      (recv' send' : ℕ → List ℕ) (t : ℕ → Thread) (m i : ℕ)
      → on i ≡ none
      → Alike recv' recv
      → Changed send' send m (insert_by_prio t i (send m))
      → IsQueuedTwice recv' send' (update on i (some m))
  IsQueuedTwice-wait_send recv' send' t m i at r ch =
      let idle = not_twice m i at in
      record {
        receives = is.receives;
        sends = update is.sends i (some m);
        receiving = IsQueued-same recv is.receives is.receiving recv' is.receives r (λ c. refl);
        sending = IsQueued-wait send is.sends is.sending send' t m i idle.3 ch;
        either = λ c. elim (Bool-cases (c == i)) [
          | inl e ↦ let eq : c ≡ i = ground arith in rw e (inl (ap is.receives eq ∙ idle.2, refl))
          | inr e ↦ rw e (is.either c)
        ];
      }
