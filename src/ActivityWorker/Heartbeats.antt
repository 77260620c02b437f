-- ===== src/ActivityWorker/Heartbeats.antt =====
-- temporalio_trio/worker/_activity.py: `_process_heartbeats`, the throttling of the heartbeats that an
-- activity records, and `_send_heartbeat`. Times are numbers in one unit; the interval is computed
-- before.
use python_trio_sdk.Common.{
  ℕ, ◌+◌, Bool, true, false, Option, none, some, List, [], ◌∷◌, ◌&&◌, leb, if◌then◌else◌,
}

-- What becomes of an attempt to send: encoding the details or the check of the bridge raises, or the
-- request is sent, and its answer is a response or an error.
pub data Sending : Type 0 where
  not_sent answered rejected : Sending

unfoldable pub is_sent : Sending → Bool
is_sent not_sent = false
is_sent _ = true

unfoldable pub is_answered : Sending → Bool
is_answered answered = true
is_answered _ = false

module _ (Details : Type 0) where
  -- Details that the channel gives, or that are sent, and the time.
  pub record Heartbeat : Type 0 where
    pub now : ℕ
    pub details : Details

  -- `sent` holds the requests to the bridge, the latest one first; `cancelled` says that the activity
  -- was cancelled for a heartbeat.
  pub record Heartbeats : Type 0 where
    pub last_heartbeat_time : ℕ
    pub pending_details : Option Details
    pub sent : List Heartbeat
    pub cancelled : Bool

module _ {Details : Type 0} where
  unfoldable pub no_heartbeats : Heartbeats Details
  no_heartbeats = record {
    last_heartbeat_time = 0;
    pending_details = none;
    sent = [];
    cancelled = false;
  }

  unfoldable pub is_due : (interval now : ℕ) → Heartbeats Details → Bool
  is_due interval now s = leb (s.last_heartbeat_time + interval) now

  -- The request, if it comes to that.
  unfoldable pub request :
      Bool → Heartbeat Details → List (Heartbeat Details) → List (Heartbeat Details)
  request true b sent = b ∷ sent
  request false b sent = sent

  unfoldable pub latest : Heartbeats Details → Option Details
  latest s = elim s.sent [ [] ↦ none | b ∷ _ ↦ some b.details ]

  -- The first of the list is at least `interval` before `now`.
  unfoldable pub follows : (interval now : ℕ) → List (Heartbeat Details) → Bool
  follows interval now [] = true
  follows interval now (b ∷ _) = leb (b.now + interval) now

  unfoldable pub spaced : (interval : ℕ) → List (Heartbeat Details) → Bool
  spaced interval [] = true
  spaced interval (b ∷ bs) = follows interval b.now bs && spaced interval bs

module _ {Details : Type 0} (send : (now : ℕ) → Details → Sending) (interval : ℕ) where
  -- `_send_heartbeat`, whose exception handler cancels the activity
  unfoldable pub send_heartbeat : Heartbeat Details → Heartbeats Details → Heartbeats Details
  unfolding is_sent is_answered request
  send_heartbeat b s = record s {
    sent = request (is_sent (send b.now b.details)) b s.sent;
    cancelled = if is_answered (send b.now b.details) then s.cancelled else true;
  }

  -- The same where trio.Cancelled ends the wait for the answer.
  unfoldable pub send_cancelled : Heartbeat Details → Heartbeats Details → Heartbeats Details
  unfolding is_sent request
  send_cancelled b s = record s {
    sent = request (is_sent (send b.now b.details)) b s.sent;
    cancelled = if is_sent (send b.now b.details) then s.cancelled else true;
  }

  -- A round of the loop.
  unfoldable pub receive : Heartbeat Details → Heartbeats Details → Heartbeats Details
  receive b s =
      if is_due interval b.now s
      then record (send_heartbeat b s) { last_heartbeat_time = b.now; pending_details = none }
      else record s { pending_details = some b.details }

  unfoldable pub receive_all : List (Heartbeat Details) → Heartbeats Details → Heartbeats Details
  receive_all [] s = s
  receive_all (b ∷ bs) s = receive_all bs (receive b s)

  -- A round that is cancelled while it waits for the answer to its request, if it sends one.
  unfoldable pub interrupted : Heartbeat Details → Heartbeats Details → Heartbeats Details
  unfolding receive
  interrupted b s =
      if is_due interval b.now s && is_sent (send b.now b.details)
      then send_cancelled b (record s { pending_details = some b.details })
      else receive b s

  -- The handler of the cancellation.
  unfoldable pub flush : (now : ℕ) → Heartbeats Details → Heartbeats Details
  flush now s = elim s.pending_details [
    | none ↦ s
    | some d ↦ send_cancelled (record { now = now; details = d }) s
  ]
