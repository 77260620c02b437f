-- ===== src/Worker/Poll.antt =====
-- temporalio_trio/worker/_single_thread_worker.py: `_poll_workflow_activations`, `_parse_activation`
-- and `_send_completion`.
use python_trio_sdk.Common.{
  ℕ, Bool, true, String, Option, none, some, List, [], ◌∷◌, ◌++◌, if◌then◌else◌,
}
use python_trio_sdk.Host.{Host, Exception, is_exception, Result, ok, err}
use python_trio_sdk.Activation.{DoBackoff, WorkflowActivation}
use python_trio_sdk.Bridge.Converters.{Converters, ◌>>=◌}
use python_trio_sdk.Bridge.Messages.{BridgeActivation, ActivationJob, remove_from_cache}
use python_trio_sdk.Bridge.Activations.{bridge_to_poc_activation, reason_of, or_none}
use python_trio_sdk.Bridge.Commands.{BridgeCompletion, poc_to_bridge_completion}
use python_trio_sdk.Worker.Code.{Code, Settings}
use python_trio_sdk.Worker.Dispatch.{Worker, Completion, dispatch_activation}

unfoldable pub first_removal : {Object : Type 0} → List (ActivationJob Object) → Option (ℕ × String)
first_removal [] = none
first_removal (remove_from_cache reason message ∷ jobs) = some (reason, message)
first_removal (_ ∷ jobs) = first_removal jobs

-- `x if x is not None else y`, where y may be None
unfoldable pub unless_given : {A : Type 0} → Option A → Option A → Option A
unless_given none y = y
unless_given (some x) y = some x

-- The second look for an eviction, in the body of the loop that breaks.
unfoldable pub check_removal :
    {Object : Type 0} → Option (ℕ × String) → WorkflowActivation Object → WorkflowActivation Object
unfolding unless_given reason_of or_none
check_removal none act = act
check_removal (some (reason, message)) act = record act {
  remove_from_cache = true;
  eviction_reason = unless_given act.eviction_reason (reason_of reason);
  eviction_message = unless_given act.eviction_message (or_none message);
}

unfoldable pub parse_activation :
    {Object : Type 0}
    → Converters Object
    → DoBackoff Object
    → BridgeActivation Object
    → Result Object (WorkflowActivation Object)
unfolding bridge_to_poc_activation first_removal check_removal
parse_activation c no_backoff act = do
  poc ← bridge_to_poc_activation c no_backoff act
  ok (check_removal (first_removal act.jobs) poc)

-- What the worker gets from outside, besides the converters and the workflow code.
pub record Surroundings (h : Host) : Type 1 where
  pub converters : Converters h.Object
  pub no_backoff : DoBackoff h.Object
  -- complete_workflow_activation, or complete_replay_activation in replay mode
  pub complete : BridgeCompletion h.Object → Result h.Object (Unit {0})
  -- "PollShutdownError" in the name of its class or in its text
  pub is_poll_shutdown : Exception h.Object → Bool

-- One round of the loop: whether the shutdown event is set when the loop tests it, what the poll
-- returns or raises, and the text that stands in for a missing run id.
pub record Round (Object : Type 0) : Type 0 where
  pub shutdown_set : Bool
  pub polled : Result Object (BridgeActivation Object)
  pub fallback : String

-- The worker, and the completions that the bridge took.
pub record Poller (h : Host) : Type 0 where
  pub worker : Worker h
  pub sent : List (BridgeCompletion h.Object)

-- How the loop stands: it would poll again, it has ended, or an exception that it does not catch
-- has ended it.
pub data Loop (Object : Type 0) : Type 0 where
  polling stopped : Loop Object
  raised : Exception Object → Loop Object

module _ {h : Host} where
  unfoldable pub unless_raised :
      Result h.Object (Unit {0}) × Poller h
      → (Poller h → Result h.Object (Unit {0}) × Poller h)
      → Result h.Object (Unit {0}) × Poller h
  unless_raised (err e, q) rest = (err e, q)
  unless_raised (ok _, q) rest = rest q

module _ {h : Host} (s : Surroundings h) where
  unfoldable pub send : Completion h.Object → Poller h → Result h.Object (Unit {0}) × Poller h
  unfolding poc_to_bridge_completion
  send comp p =
      elim (poc_to_bridge_completion s.converters h.none_object comp.run_id comp.commands) [
        | err e ↦ (err e, p)
        | ok m ↦ elim (s.complete m) [
          | err e ↦ (err e, p)
          | ok _ ↦ (ok tt, record p { sent = p.sent ++ m ∷ [] })
        ]
      ]

  -- The completions that a dispatch leaves, at most one; sending is the last thing that it does.
  unfoldable pub send_all :
      List (Completion h.Object) → Poller h → Result h.Object (Unit {0}) × Poller h
  unfolding send unless_raised
  send_all [] p = (ok tt, p)
  send_all (comp ∷ comps) p = unless_raised (send comp p) λ q. send_all comps q

  unfoldable pub sent_off :
      Result h.Object (Unit {0}) × Worker h → Poller h → Result h.Object (Unit {0}) × Poller h
  unfolding send_all
  sent_off (err e, w) p = (err e, record p { worker = w })
  sent_off (ok _, w) p =
      send_all w.completions (record p { worker = record w { completions = [] } })

  -- `except Exception`, which stops at a poll shutdown and goes on otherwise.
  unfoldable pub after_round :
      Result h.Object (Unit {0}) × Poller h
      → (Poller h → Loop h.Object × Poller h)
      → Loop h.Object × Poller h
  after_round (ok _, q) rest = rest q
  after_round (err e, q) rest =
      if is_exception e
      then (if s.is_poll_shutdown e then (stopped, q) else rest q)
      else (raised e, q)

module _ {h : Host} (code : Code h) (settings : Settings) (s : Surroundings h) where
  unfoldable pub serve_parsed :
      (fallback : String)
      → Poller h
      → Result h.Object (WorkflowActivation h.Object)
      → Result h.Object (Unit {0}) × Poller h
  unfolding dispatch_activation sent_off
  serve_parsed fallback p (err e) = (err e, p)
  serve_parsed fallback p (ok act) =
      sent_off s
        (dispatch_activation code settings fallback act (record p.worker { completions = [] })) p

  -- The body of the `try`, with what the poll gave.
  unfoldable pub serve :
      (fallback : String)
      → Result h.Object (BridgeActivation h.Object)
      → Poller h
      → Result h.Object (Unit {0}) × Poller h
  unfolding parse_activation serve_parsed
  serve fallback polled p =
      serve_parsed fallback p (polled >>= parse_activation s.converters s.no_backoff)

  unfoldable pub poll_loop : List (Round h.Object) → Poller h → Loop h.Object × Poller h
  unfolding serve after_round
  poll_loop [] p = (polling, p)
  poll_loop (round ∷ rounds) p =
      if round.shutdown_set
      then (stopped, p)
      else after_round s (serve round.fallback round.polled p) λ q. poll_loop rounds q
