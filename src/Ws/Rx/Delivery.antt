-- ===== src/Ws/Rx/Delivery.antt =====
-- What `WsRx::push` of crates/core/src/ws.rs delivers, and what it holds on to.
use cadeloop.Prelude.{
  ℕ, ◌+◌, ◌≤◌, ◌<◌, ◌≡◌, refl, sym, ◌∙◌, subst, inl, inr, Bool, true, false, List, [], ◌∷◌, ◌++◌,
  arith, length, if◌then◌else◌, Bool-cases, append_assoc, append-nil,
}
use cadeloop.Prelude.Partial.{Yields, yields}
use cadeloop.Ws.{need_more, event, WsEvent}
use cadeloop.Ws.Rx.{WsRx, parse_one, push, is_last}
use cadeloop.Ws.Rx.Frames.{Fits, Keeps, Parsed, waits, rejects, gives, parse_one-Parsed}
use cadeloop.Ws.Rx.Stream.{
  Stop, Reads, stays, ends, delivers, joins, Reads-total, emptied, left, push-left, push_ended,
  parse_one-Keeps,
}

-- The fragments of a message and the bytes of a frame that are kept are bounded by the message limit.
pub record IsBounded (rx : WsRx) : Type 0 where
  pub frag : length rx.frag ≤ rx.max_message
  pub buf : length rx.buf < 14 + rx.max_message

abbrev pub AllFit : ℕ → List WsEvent → Type 0
AllFit max [] = Unit
AllFit max (ev ∷ l) = Fits max ev × AllFit max l

-- A Close or a failure is the last event, and it ends the stream.
abbrev pub IsOrdered : Bool → List WsEvent → Type 0
IsOrdered ended [] = ended ≡ false
IsOrdered ended (ev ∷ l) = if is_last ev then (ended ≡ true) × (l ≡ []) else IsOrdered ended l

pub record Delivered (rx : WsRx) (out : List WsEvent) (r : WsRx × List WsEvent) : Type 0 where
  pub new : List WsEvent
  pub events : r.1 ≡ out ++ new
  pub fit : AllFit rx.max_message new
  pub ordered : if rx.ended then (new ≡ []) × (r.0 ≡ rx) else IsOrdered r.0.ended new
  pub bounded : IsBounded r.0
  pub same_limit : r.0.max_message ≡ rx.max_message

parse_one-Fits :
    (rx : WsRx) (b : List ℕ) {rx' : WsRx} {ev : WsEvent}
    → parse_one rx b ≡ (rx', event ev)
    → Fits rx.max_message ev
parse_one-Fits rx b e = given (subst (Parsed rx b) e (parse_one-Parsed rx b))
  where
    given :
        {rx : WsRx} {b : List ℕ} {rx' : WsRx} {ev : WsEvent}
        → Parsed rx b (rx', event ev)
        → Fits rx.max_message ev
    given (rejects code why) = tt
    given (gives rx' ev k pos le fits) = fits

parse_one-waits :
    (rx : WsRx) (b : List ℕ) → parse_one rx b ≡ (rx, need_more) → length b < 14 + rx.max_message
parse_one-waits rx b e = given (subst (Parsed rx b) e (parse_one-Parsed rx b))
  where
    given :
        {rx rx' : WsRx} {b : List ℕ} → Parsed rx b (rx', need_more) → length b < 14 + rx.max_message
    given (waits lt) = lt

-- What the rounds add to the events, and the bounds that they keep.
record Added (rx : WsRx) (out : List WsEvent) (s : Stop) : Type 0 where
  new : List WsEvent
  events : (left s).1 ≡ out ++ new
  fit : AllFit rx.max_message new
  ordered : rx.ended ≡ false → IsOrdered (left s).0.ended new
  bounded : length rx.frag ≤ rx.max_message → IsBounded (left s).0
  same_limit : (left s).0.max_message ≡ rx.max_message

-- A round first that does not end the stream.
Added-after :
    {rx rx' : WsRx} {out : List WsEvent} {s : Stop}
    → Keeps rx rx'
    → Added rx' out s
    → Added rx out s
Added-after {rx} k a = record {
  new = a.new;
  events = a.events;
  fit = subst (λ m. AllFit m a.new) k.max_message a.fit;
  ordered = λ live. a.ordered (k.ended ∙ live);
  bounded = λ h. a.bounded (omega (arith, k.bounded h, k.max_message));
  same_limit = a.same_limit ∙ k.max_message;
}

Added-event :
    {rx : WsRx} {out : List WsEvent} {s : Stop} (ev : WsEvent)
    → is_last ev ≡ false
    → Fits rx.max_message ev
    → Added rx (out ++ ev ∷ []) s
    → Added rx out s
Added-event {rx} {out} {s} ev l fits a = record {
  new = ev ∷ a.new;
  events = a.events ∙ append_assoc out (ev ∷ []) a.new;
  fit = (fits, a.fit);
  ordered = λ live. rw l (a.ordered live);
  bounded = a.bounded;
  same_limit = a.same_limit;
}

Reads-Added :
    {rx : WsRx} {b : List ℕ} {out : List WsEvent} {s : Stop} → Reads rx b out s → Added rx out s
Reads-Added {rx} {b} {out} (stays e) = record {
  new = [];
  events = sym (append-nil out);
  fit = tt;
  ordered = λ live. live;
  bounded = λ h. record { frag = h; buf = parse_one-waits rx b e };
  same_limit = refl;
}
Reads-Added {rx} {b} (ends rx' ev e l) =
    let k = parse_one-Keeps rx b e in
    record {
      new = ev ∷ [];
      events = refl;
      fit = (parse_one-Fits rx b e, tt);
      ordered = λ live. rw l (refl, refl);
      bounded = λ h. record { frag = omega (arith, k.bounded h, k.max_message); buf = omega arith };
      same_limit = k.max_message;
    }
Reads-Added {rx} {b} (delivers rx' ev e l p q r) =
    Added-event ev l (parse_one-Fits rx b e) (Added-after (parse_one-Keeps rx b e) (Reads-Added r))
Reads-Added {rx} {b} (joins rx' e p q r) = Added-after (parse_one-Keeps rx b e) (Reads-Added r)

-- `push` returns. Every event that it delivers keeps to the limits, a Close or a failure is the last one
-- and ends the stream, and nothing is delivered after the end. What is held on to stays bounded.
pub push_delivers :
    (rx : WsRx) (d : List ℕ) (out : List WsEvent)
    → IsBounded rx
    → Yields (Delivered rx out) (push rx d out)
push_delivers rx d out h = elim (Bool-cases rx.ended) [
  | inl e ↦
      let none_new : List WsEvent = [] in
      subst (Yields (Delivered rx out)) (sym (push_ended rx d out e)) (
        yields (record {
          new = [];
          events = sym (append-nil out);
          fit = tt;
          ordered =
              subst (λ t. if t then (none_new ≡ []) × (rx ≡ rx) else IsOrdered rx.ended none_new)
                (sym e) (refl, refl);
          bounded = h;
          same_limit = refl;
        }))
  | inr live ↦
      let (s, r) =
        Reads-total (length (rx.buf ++ d) + 1) (emptied rx) (rx.buf ++ d) out (omega arith) in
      let a = Reads-Added r in
      subst (Yields (Delivered rx out)) (sym (push-left rx d out live r)) (
        yields (record {
          new = a.new;
          events = a.events;
          fit = a.fit;
          ordered =
              subst
                (λ t.
                  if t then (a.new ≡ []) × ((left s).0 ≡ rx) else IsOrdered (left s).0.ended a.new)
                (sym live) (a.ordered live);
          bounded = a.bounded h.frag;
          same_limit = a.same_limit;
        }))
]
