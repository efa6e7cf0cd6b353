-- ===== src/Inbound/Loop.antt =====
-- src/inbound.rs, `AccountWorker::run`, `connect_select_and_loop`, `idle_loop` and `poll_loop`: the
-- states that a worker goes through and what it reports of them. Which step comes next is up to the
-- server and the cancel token, and at the top of the loop to the breaker. A dealt-with message is
-- one step.
pub mod Reach
use nexo_plugin_email.Outbound.{CircuitBreaker}
use nexo_plugin_email.Base.{ℕ, Bool, true, false, ◌+◌, ◌-◌, ◌^◌, ◌≡◌, min, Str, Option, none, some}
use nexo_plugin_email.Health.{
  AccountHealth, WorkerState, connecting, idle, polling, down, default_health,
}

abbrev pub u32_saturated : ℕ → ℕ
u32_saturated n = min n (2 ^ 32 - 1)

abbrev pub set_state : WorkerState → AccountHealth → AccountHealth
set_state state h = record h { state = state }

abbrev pub note_idle_alive : ℕ → AccountHealth → AccountHealth
note_idle_alive now h = record h { last_idle_alive_ts = now; state = idle }

abbrev pub note_poll : ℕ → AccountHealth → AccountHealth
note_poll now h = record h { last_poll_ts = now }

abbrev pub note_connect_ok : ℕ → AccountHealth → AccountHealth
note_connect_ok now h = record h {
  last_connect_ok_ts = now;
  consecutive_failures = 0;
  last_error = none;
}

abbrev pub note_failure : Str → AccountHealth → AccountHealth
note_failure error h = record h {
  consecutive_failures = u32_saturated (h.consecutive_failures + 1);
  last_error = some error;
  state = connecting;
}

abbrev pub note_message : AccountHealth → AccountHealth
note_message h = record h { messages_seen_total = min (h.messages_seen_total + 1) (2 ^ 64 - 1) }

-- Where the worker is: at the top of its loop, in the connect, between the connect and one of the
-- two session loops (with whether the server has IDLE), in one of them, in the wait before the next
-- round, or at its end.
pub data Phase : Type 0 where
  at_top in_connect : Phase
  opening : (idle_capability : Bool) → Phase
  in_idle in_poll waiting ended : Phase

-- The phases in which a message is handled, in which an error ends the session, and in which the
-- cancel token is looked at.
pub data Handles : Phase → Type 0 where
  opening_handles : {idle_capability : Bool} → Handles (opening idle_capability)
  idle_handles : Handles in_idle
  poll_handles : Handles in_poll

pub data MayFail : Phase → Type 0 where
  connect_fails : MayFail in_connect
  session_fails : {p : Phase} → Handles p → MayFail p

pub data MayCancel : Phase → Type 0 where
  top_cancels : MayCancel at_top
  wait_cancels : MayCancel waiting
  idle_cancels : MayCancel in_idle
  poll_cancels : MayCancel in_poll

-- The breaker of the account, and whether the credential store has its credential, without which
-- a connect only fails.
module _ (B : CircuitBreaker) (has_credential : Bool) where
  pub record WorkerLoop : Type 0 where
    pub phase : Phase
    pub attempt : ℕ
    pub breaker : B.State
    pub health : AccountHealth

  abbrev pub spawned : B.State → WorkerLoop
  spawned breaker = record {
    phase = at_top;
    attempt = 0;
    breaker = breaker;
    health = default_health;
  }

  abbrev pub failed_loop : Str → WorkerLoop → WorkerLoop
  failed_loop error w = record {
    phase = waiting;
    attempt = u32_saturated (w.attempt + 1);
    breaker = B.on_failure w.breaker;
    health = note_failure error w.health;
  }

  pub data LoopStep : WorkerLoop → WorkerLoop → Type 0 where
    breaker_open :
        (w : WorkerLoop)
        → w.phase ≡ at_top
        → (B.allow w.breaker).0 ≡ false
        → LoopStep w (record w {
          phase = waiting;
          breaker = (B.allow w.breaker).1;
          health = set_state down w.health;
        })
    connects :
        (w : WorkerLoop)
        → w.phase ≡ at_top
        → (B.allow w.breaker).0 ≡ true
        → LoopStep w (record w {
          phase = in_connect;
          breaker = (B.allow w.breaker).1;
          health = set_state connecting w.health;
        })
    connected :
        (w : WorkerLoop) (now : ℕ) (idle_capability : Bool)
        → w.phase ≡ in_connect
        → has_credential ≡ true
        → LoopStep w (record w {
          phase = opening idle_capability;
          breaker = B.on_success w.breaker;
          health = note_connect_ok now w.health;
        })
    handles :
        (w : WorkerLoop)
        → Handles w.phase
        → LoopStep w (record w { health = note_message w.health })
    idles :
        (w : WorkerLoop)
        → w.phase ≡ opening true
        → LoopStep w (record w { phase = in_idle; health = set_state idle w.health })
    polls :
        (w : WorkerLoop)
        → w.phase ≡ opening false
        → LoopStep w (record w { phase = in_poll; health = set_state polling w.health })
    idle_alive :
        (w : WorkerLoop) (now : ℕ)
        → w.phase ≡ in_idle
        → LoopStep w (record w { health = note_idle_alive now w.health })
    polled :
        (w : WorkerLoop) (now : ℕ)
        → w.phase ≡ in_poll
        → LoopStep w (record w { health = note_poll now w.health })
    fails : (w : WorkerLoop) (error : Str) → MayFail w.phase → LoopStep w (failed_loop error w)
    wakes : (w : WorkerLoop) → w.phase ≡ waiting → LoopStep w (record w { phase = at_top })
    cancelled : (w : WorkerLoop) → MayCancel w.phase → LoopStep w (record w { phase = ended })

  pub data LoopReach (w : WorkerLoop) : WorkerLoop → Type 0 where
    here : LoopReach w w
    next : {u v : WorkerLoop} → LoopReach w u → LoopStep u v → LoopReach w v
