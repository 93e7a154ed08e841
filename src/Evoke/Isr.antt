-- ===== src/Evoke/Isr.antt =====
-- src/ek_evoke.c: the requests of interrupts, which reach the loop through the SPSC ring.
use ek_utils.Base.{
  ℕ, zero, suc, ◌+◌, ◌<◌, ◌^◌, List, [], ◌∷◌, ◌/◌, ◌%◌, Bool, true, false, Option, none, some, ◌==◌,
  if◌then◌else◌, ◌>>=◌, Bytes,
}
use ek_utils.Err.{Err, inval, is_ok}
use ek_utils.Spsc
use ek_utils.Spsc.{Spsc}
use ek_utils.Evoke.State.{Evoke}
use ek_utils.Evoke.Events.{publish, broadcast}
use ek_utils.Evoke.Timer.{defer}

-- `_isr_req_t`
pub record IsrReq : Type 0 where
  pub kind : ℕ
  pub target : ℕ
  pub payload : ℕ
  pub delay : ℕ

-- `ISR_REQ_PUBLISH`, `ISR_REQ_PUBLISH_DEALY` and `ISR_REQ_BROADCAST`, and the tests for their bits.
abbrev pub req_publish : ℕ
req_publish = 1

abbrev pub req_delay : ℕ
req_delay = 2

abbrev pub req_broadcast : ℕ
req_broadcast = 4

abbrev pub has_flag : ℕ → ℕ → Bool
has_flag flag kind = kind / flag % 2 == 1

-- A request that the fields of the struct hold: a `uint8_t`, two pointers of 32 bits, a `uint32_t`.
abbrev pub Fits : IsrReq → Type 0
Fits r = (r.kind < 2 ^ 8) × (r.target < 2 ^ 32) × (r.payload < 2 ^ 32) × (r.delay < 2 ^ 32)

abbrev pub AllFit : List IsrReq → Type 0
AllFit [] = Unit {0}
AllFit (r ∷ rest) = Fits r × AllFit rest

-- How the compiler lays a request out in memory.
pub record Layout : Type 0 where
  pub size : ℕ
  pub encode : IsrReq → Bytes
  pub decode : Bytes → IsrReq

module _ (layout : Layout) where
  open layout use {size, encode, decode}

  -- Between `ek_evoke_enter_critical` and `ek_evoke_exit_critical`.
  unfoldable pub post : IsrReq → Evoke → Err × Evoke
  post req k = let (e, rb) = Spsc.write_item k.fifo (encode req) in (e, record k { fifo = rb })

  unfoldable pub broadcast_from_isr : Option ℕ → ℕ → Evoke → Err × Evoke
  broadcast_from_isr none payload k = (inval, k)
  broadcast_from_isr (some e) payload k =
      post (record { kind = req_broadcast; target = e; payload = payload; delay = 0 }) k

  unfoldable pub publish_from_isr : Option ℕ → ℕ → Evoke → Err × Evoke
  publish_from_isr none payload k = (inval, k)
  publish_from_isr (some e) payload k =
      post (record { kind = req_publish; target = e; payload = payload; delay = 0 }) k

  unfoldable pub defer_from_isr : Option ℕ → ℕ → ℕ → Bool → Evoke → Err × Evoke
  defer_from_isr none payload delay all k = (inval, k)
  defer_from_isr (some e) payload delay all k =
      let kind = if all then req_delay + req_broadcast else req_delay + req_publish in
      post (record { kind = kind; target = e; payload = payload; delay = delay }) k

  -- What the loop does with one request.
  unfoldable pub handle : IsrReq → Evoke → Option Evoke
  handle req k =
      let later = λ (all : Bool). defer (some req.target) req.payload req.delay all k in
      if has_flag req_publish req.kind
      then (if has_flag req_delay req.kind
          then later false
          else publish (some req.target) req.payload k)
      else if has_flag req_broadcast req.kind
      then (if has_flag req_delay req.kind
          then later true
          else broadcast (some req.target) req.payload k)
      else some k

  abbrev pub handle_bytes : Option Bytes → Evoke → Option Evoke
  handle_bytes none k = some k
  handle_bytes (some item) k = handle (decode item) k

  -- `blank` is `req`, which begins as zeros.
  unfoldable pub drain_one : Bytes → Evoke → Option Evoke
  drain_one blank k =
      let (e, out, rb) = Spsc.read_item k.fifo (some blank) in
      let k = record k { fifo = rb } in if is_ok e then handle_bytes out k else some k

  -- The loop over the ring, with fuel for its rounds.
  unfoldable pub drain : ℕ → Bytes → Evoke → Option Evoke
  drain zero blank k = none
  drain (suc fuel) blank k =
      let more = drain_one blank k >>= drain fuel blank in
      if Spsc.is_empty (some k.fifo) then some k else more
