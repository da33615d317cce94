-- ===== src/Mq/Consumer.antt =====
-- backend/assemblage/mq/consumer.py: the loop acknowledges each delivery, never the handler.
use assemblage.Prelude.{
  ℕ, suc, ◌≡◌, Bool, true, false, if◌then◌else◌, List, [], ◌∷◌, Text, Option, arith,
}

pub data AckDecision : Type 0 where
  ack requeue : AckDecision

pub record IncomingMessage : Type 0 where
  pub body : Text
  pub correlation_id : Option Text
  pub reply_to : Option Text
  pub redelivered : Bool
  pub routing_key : Text

-- What a handler does: it returns its decision, or raises.
pub data Outcome : Type 0 where
  returned : AckDecision → Outcome
  raised : Outcome

-- What happens to a delivery, in order.
pub data Event : Type 0 where
  acked nacked : ℕ → Event
  handled : Outcome → Event

settle : ℕ → Outcome → Event
settle tag (returned AckDecision.ack) = acked tag
settle tag (returned AckDecision.requeue) = nacked tag
settle tag raised = nacked tag

-- `_on_message`, for a handler over a state of its own.
pub on_message {ℓ} :
    {S : Type ℓ}
    → Bool
    → (IncomingMessage → S → Outcome × S)
    → ℕ
    → IncomingMessage
    → S
    → List Event × S
unfolding settle
on_message ack_early handler tag message s =
    let (outcome, s') = handler message s in
    if ack_early
    then (acked tag ∷ handled outcome ∷ [], s')
    else (handled outcome ∷ settle tag outcome ∷ [], s')

-- How often a delivery is settled.
pub settled : List Event → ℕ
settled [] = 0
settled (acked t ∷ es) = suc (settled es)
settled (nacked t ∷ es) = suc (settled es)
settled (handled o ∷ es) = settled es

abbrev pub is_ack : Outcome → Bool
is_ack (returned AckDecision.ack) = true
is_ack _ = false

module _ {ℓ} {S : Type ℓ} (handler : IncomingMessage → S → Outcome × S) (tag : ℕ) where
  -- Whatever the handler does, it runs once and the delivery is settled once. Under `ack_early` the
  -- acknowledgement comes first; else it comes after, and the delivery goes back to the queue unless
  -- the handler returned ACK.
  pub on_message_once :
      (ack_early : Bool) (m : IncomingMessage) (s : S)
      → (settled (on_message ack_early handler tag m s).0 ≡ 1)
        × ((on_message ack_early handler tag m s).0 ≡ (
            if ack_early
            then acked tag ∷ handled (handler m s).0 ∷ []
            else handled (handler m s).0
              ∷ (if is_ack (handler m s).0 then acked tag else nacked tag)
              ∷ []))
        × ((on_message ack_early handler tag m s).1 ≡ (handler m s).1)
  unfolding on_message settled
  on_message_once ack_early m s = ground arith
