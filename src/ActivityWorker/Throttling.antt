-- ===== src/ActivityWorker/Throttling.antt =====
-- temporalio_trio/worker/_activity.py: the requests that `_process_heartbeats` sends.
use python_trio_sdk.Common.{
  ℕ, ◌+◌, ◌≡◌, refl, Bool, true, false, Option, none, some, List, [], ◌∷◌, ◌&&◌, leb, if◌then◌else◌,
  arith, Bool-cases, inl, inr,
}
use python_trio_sdk.ActivityWorker.Heartbeats.{
  Sending, not_sent, answered, rejected, is_sent, is_answered, Heartbeat, Heartbeats, no_heartbeats,
  is_due, request, latest, follows, spaced, send_heartbeat, send_cancelled, receive, receive_all,
  interrupted, flush,
}

module _ {Details : Type 0} (send : (now : ℕ) → Details → Sending) (interval : ℕ) where
  record IsThrottled (s : Heartbeats Details) : Type 0 where
    gaps : spaced interval s.sent ≡ true
    last : follows 0 s.last_heartbeat_time s.sent ≡ true

  follows-due :
      (now last : ℕ) (bs : List (Heartbeat Details))
      → follows 0 last bs ≡ true
      → leb (last + interval) now ≡ true
      → (follows interval now bs ≡ true) × (follows 0 now bs ≡ true)
  unfolding follows
  follows-due now last [] p q = (refl, refl)
  follows-due now last (b ∷ _) p q = (ground (arith, p, q), ground (arith, p, q))

  now-follows :
      (b : Heartbeat Details) (bs : List (Heartbeat Details)) → follows 0 b.now (b ∷ bs) ≡ true
  unfolding follows
  now-follows b bs = ground arith

  request-IsThrottled :
      (c cancelled : Bool) (b : Heartbeat Details) (s : Heartbeats Details)
      → leb (s.last_heartbeat_time + interval) b.now ≡ true
      → IsThrottled s
      → IsThrottled (record {
        last_heartbeat_time = b.now;
        pending_details = none;
        sent = request c b s.sent;
        cancelled = cancelled;
      })
  unfolding request spaced
  request-IsThrottled true cancelled b s p i =
      let (due, _) = follows-due b.now s.last_heartbeat_time s.sent i.last p in
      record { gaps = rw (due, i.gaps) refl; last = now-follows b s.sent }
  request-IsThrottled false cancelled b s p i =
      let (_, later) = follows-due b.now s.last_heartbeat_time s.sent i.last p in
      record { gaps = i.gaps; last = later }

  receive-IsThrottled :
      (b : Heartbeat Details) (s : Heartbeats Details)
      → IsThrottled s
      → IsThrottled (receive send interval b s)
  unfolding receive is_due send_heartbeat
  receive-IsThrottled b s i = elim (Bool-cases (leb (s.last_heartbeat_time + interval) b.now)) [
    | inl p ↦ rw (p) (request-IsThrottled (is_sent (send b.now b.details)) _ b s p i)
    | inr p ↦ rw (p) (record { gaps = i.gaps; last = i.last })
  ]

  receive_all-IsThrottled :
      (bs : List (Heartbeat Details)) (s : Heartbeats Details)
      → IsThrottled s
      → IsThrottled (receive_all send interval bs s)
  unfolding receive_all
  receive_all-IsThrottled [] s i = i
  receive_all-IsThrottled (b ∷ bs) s i =
      receive_all-IsThrottled bs (receive send interval b s) (receive-IsThrottled b s i)

  no_heartbeats-IsThrottled : IsThrottled no_heartbeats
  unfolding no_heartbeats spaced follows
  no_heartbeats-IsThrottled = record { gaps = refl; last = refl }

  -- The last request has the details; or else it is the one before, and the activity is cancelled.
  unfoldable pub IsDelivered : Bool → Details → (before after : Heartbeats Details) → Type 0
  IsDelivered true d before after = latest after ≡ some d
  IsDelivered false d before after = (latest after ≡ latest before) × (after.cancelled ≡ true)

  -- The moment at which the details of a heartbeat are tried to be sent.
  unfoldable pub tried : Heartbeat Details → (now : ℕ) → Heartbeats Details → ℕ
  tried b now s = if is_due interval b.now s then b.now else now

  sent-IsDelivered :
      (c : Sending) (last : ℕ) (pending : Option Details) (b : Heartbeat Details)
      (s : Heartbeats Details)
      → IsDelivered (is_sent c) b.details s (record {
        last_heartbeat_time = last;
        pending_details = pending;
        sent = request (is_sent c) b s.sent;
        cancelled = if is_answered c then s.cancelled else true;
      })
  unfolding IsDelivered is_sent is_answered request latest
  sent-IsDelivered not_sent last pending b s = (refl, refl)
  sent-IsDelivered answered last pending b s = refl
  sent-IsDelivered rejected last pending b s = refl

  cancelled-IsDelivered :
      (c : Sending) (last : ℕ) (pending : Option Details) (b : Heartbeat Details)
      (s : Heartbeats Details)
      → IsDelivered (is_sent c) b.details s (record {
        last_heartbeat_time = last;
        pending_details = pending;
        sent = request (is_sent c) b s.sent;
        cancelled = if is_sent c then s.cancelled else true;
      })
  unfolding IsDelivered is_sent request latest
  cancelled-IsDelivered not_sent last pending b s = (refl, refl)
  cancelled-IsDelivered answered last pending b s = refl
  cancelled-IsDelivered rejected last pending b s = refl

  receive-IsDelivered :
      (now : ℕ) (b : Heartbeat Details) (s : Heartbeats Details)
      → IsDelivered
          (is_sent (send (tried b now s) b.details))
          b.details
          s
          (flush send interval now (receive send interval b s))
  unfolding receive flush tried send_heartbeat send_cancelled
  receive-IsDelivered now b s = elim (Bool-cases (is_due interval b.now s)) [
    | inl p ↦ rw (p) (sent-IsDelivered (send b.now b.details) b.now none b s)
    | inr p ↦ rw (p) (
        cancelled-IsDelivered (send now b.details) s.last_heartbeat_time (some b.details)
          record { now = now; details = b.details } s)
  ]

  -- A second request with the details, or none, behind one with them.
  again-latest :
      (c : Bool) (now : ℕ) (b : Heartbeat Details) (s : Heartbeats Details)
      → latest
          (record s { sent = request c (record { now = now; details = b.details }) (b ∷ s.sent) })
        ≡ some b.details
  unfolding latest request
  again-latest true now b s = refl
  again-latest false now b s = refl

  interrupted-receive :
      (b : Heartbeat Details) (s : Heartbeats Details)
      → (is_due interval b.now s && is_sent (send b.now b.details)) ≡ false
      → interrupted send interval b s ≡ receive send interval b s
  unfolding interrupted
  interrupted-receive b s e = rw (e) refl

  interrupted-IsDelivered :
      (now : ℕ) (b : Heartbeat Details) (s : Heartbeats Details)
      → IsDelivered
          (is_sent (send (tried b now s) b.details))
          b.details
          s
          (flush send interval now (interrupted send interval b s))
  unfolding interrupted flush tried send_cancelled IsDelivered request
  interrupted-IsDelivered now b s = elim (Bool-cases (is_due interval b.now s)) [
    | inr p ↦ rw (interrupted-receive b s (rw (p) refl)) (receive-IsDelivered now b s)
    | inl p ↦ elim (Bool-cases (is_sent (send b.now b.details))) [
      | inl q ↦ rw (p, q) (again-latest (is_sent (send now b.details)) now b _)
      | inr q ↦ rw (interrupted-receive b s (rw (p, q) refl)) (receive-IsDelivered now b s)
    ]
  ]

  -- Whatever heartbeats the channel gives and whatever becomes of the attempts to send them: two
  -- requests of the loop that follow each other are at least the interval apart. When the processor is
  -- cancelled, while it waits for a heartbeat or for the answer to a request, the last request has the
  -- details that it has received last, if sending them comes to a request when it is tried: at once
  -- where they are due, and else at the cancellation. If it does not, they are lost, and the activity
  -- is cancelled.
  pub heartbeats_throttled_and_flushed :
      (now : ℕ) (bs : List (Heartbeat Details)) (b : Heartbeat Details)
      → let s = receive_all send interval bs no_heartbeats in
        (spaced interval (receive send interval b s).sent ≡ true)
        × IsDelivered
            (is_sent (send (tried b now s) b.details))
            b.details
            s
            (flush send interval now (receive send interval b s))
        × IsDelivered
            (is_sent (send (tried b now s) b.details))
            b.details
            s
            (flush send interval now (interrupted send interval b s))
  heartbeats_throttled_and_flushed now bs b =
      let s = receive_all send interval bs no_heartbeats in
      (
        (receive-IsThrottled b s (receive_all-IsThrottled bs _ no_heartbeats-IsThrottled)).gaps,
        receive-IsDelivered now b s,
        interrupted-IsDelivered now b s,
      )
