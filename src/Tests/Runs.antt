-- ===== src/Tests/Runs.antt =====
-- Concrete runs of the workers, and the theorems on them.
use nexo_plugin_email.Base.{true, none, some, ◌≡◌, refl, arith, codes, str_eq}
use nexo_plugin_email.Inbound.Loop.{
  WorkerLoop, spawned, LoopReach, here, next, in_connect, connects, fails, connect_fails,
  failed_loop,
}
use nexo_plugin_email.Inbound.Loop.Reach.{IsHonest, LoopReach-IsHonest}
use nexo_plugin_email.Outbound.{OutboundWorker, handle_outcome}
use nexo_plugin_email.Outbound.Sends.{Sends, unsent, sends, Sends-settle}
use nexo_plugin_email.OutboundQueue.Pending.{pending, pending-enqueue}
use nexo_plugin_email.OutboundQueue.{OutboundJob, write_all, enqueue}
use nexo_plugin_email.Tests.Codec.{storage}
use nexo_plugin_email.Tests.Queue.{closed, deferred, empty_queue, first_job, worker}

-- A job that has been sent four times, alone in its queue.
abbrev tired : OutboundJob
tired = record first_job { attempts = 4 }

abbrev busy : OutboundWorker storage closed
busy = record worker { queue = write_all (enqueue storage tired) empty_queue }

tired-pending : pending storage busy.queue (codes "a1") ≡ some tired
unfolding str_eq
tired-pending = pending-enqueue storage empty_queue tired (codes "a1")

last_send :
    Sends storage closed (codes "a1") busy 1 (handle_outcome storage closed tired deferred busy)
last_send = sends tired deferred unsent tired-pending

Sends-settle_example :
    pending storage (handle_outcome storage closed tired deferred busy).queue (codes "a1") ≡ none
Sends-settle_example =
    Sends-settle storage closed (codes "a1") tired last_send tired-pending (omega arith)
      (omega arith)

-- A worker whose first connect was refused.
abbrev refused : WorkerLoop closed true
refused =
    failed_loop closed true (codes "refused")
      (record (spawned closed true tt) { phase = in_connect })

refused_reached : LoopReach closed true (spawned closed true tt) refused
refused_reached =
    next (next here (connects (spawned closed true tt) refl refl))
      (fails _ (codes "refused") connect_fails)

LoopReach-IsHonest_example : IsHonest closed true refused
LoopReach-IsHonest_example = LoopReach-IsHonest closed true tt refused_reached
