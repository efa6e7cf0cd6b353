-- ===== src/Inbound/Loop/Reach.antt =====
-- src/inbound.rs: what the health of an account tells of its worker, whatever happens to it.
use nexo_plugin_email.Base.{Bool, ◌≤◌, none, ◌≡◌, ◌⊎◌, ◌↔◌, arith}
use nexo_plugin_email.Health.{AccountHealth, connecting, idle, polling, down}
use nexo_plugin_email.Outbound.{CircuitBreaker}
use nexo_plugin_email.Inbound.Loop.{
  Phase, at_top, in_connect, opening, in_idle, in_poll, waiting, ended, WorkerLoop, spawned,
  LoopStep, LoopReach, here, next, breaker_open, connects, connected, handles, idles, polls,
  idle_alive, polled, fails, wakes, cancelled,
}

-- What a phase says of the reported state and of the failures since the last connect.
abbrev pub Reports : Phase → AccountHealth → Type 0
Reports at_top h = (h.state ≡ connecting) ⊎ (h.state ≡ down)
Reports in_connect h = h.state ≡ connecting
Reports (opening idle_capability) h = (h.state ≡ connecting) × (h.consecutive_failures ≡ 0)
Reports in_idle h = (h.state ≡ idle) × (h.consecutive_failures ≡ 0)
Reports in_poll h = (h.state ≡ polling) × (h.consecutive_failures ≡ 0)
Reports waiting h = (h.state ≡ connecting) ⊎ (h.state ≡ down)
Reports ended h = Unit

module _ (B : CircuitBreaker) (has_credential : Bool) where
  -- An error is reported exactly while there are failures, and these are no more than the attempts.
  abbrev pub IsHonest : WorkerLoop B has_credential → Type 0
  IsHonest w =
      Reports w.phase w.health
      × ((w.health.consecutive_failures ≡ 0) ↔ (w.health.last_error ≡ none))
      × (w.health.consecutive_failures ≤ w.attempt)

  LoopStep-IsHonest :
      {u v : WorkerLoop B has_credential} → LoopStep B has_credential u v → IsHonest u → IsHonest v
  LoopStep-IsHonest (breaker_open w e closed) h = ground arith
  LoopStep-IsHonest (connects w e open_) h = ground arith
  LoopStep-IsHonest (connected w now idle_capability e known) h = ground arith
  LoopStep-IsHonest (handles w p) h = ground arith
  LoopStep-IsHonest (idles w e) h = ground arith
  LoopStep-IsHonest (polls w e) h = ground arith
  LoopStep-IsHonest (idle_alive w now e) h = ground arith
  LoopStep-IsHonest (polled w now e) h = ground arith
  LoopStep-IsHonest (fails w error p) h = ground arith
  LoopStep-IsHonest (wakes w e) h = ground arith
  LoopStep-IsHonest (cancelled w p) h = ground arith

  -- In every state that a worker reaches from its start: while it connects, it reports so; in a
  -- session it reports the kind of the session, and no failures; between two rounds it reports that
  -- it connects or is down; an error is reported exactly while there are failures since the last
  -- connect, and these are at most as many as the attempts that the wait is computed from.
  pub LoopReach-IsHonest :
      (breaker : B.State) {w : WorkerLoop B has_credential}
      → LoopReach B has_credential (spawned B has_credential breaker) w
      → IsHonest w
  LoopReach-IsHonest breaker here = ground arith
  LoopReach-IsHonest breaker (next r s) = LoopStep-IsHonest s (LoopReach-IsHonest breaker r)
