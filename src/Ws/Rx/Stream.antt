-- ===== src/Ws/Rx/Stream.antt =====
-- `WsRx::push` of crates/core/src/ws.rs over a whole stream: the loop ends, and what it delivers does not
-- depend on how the stream was cut into reads.
use cadeloop.Prelude.{
  ℕ, zero, suc, ◌+◌, ◌≤◌, ◌<◌, ◌≡◌, refl, sym, ap, ◌∙◌, subst, inl, inr, true, false, ◌&&◌, not,
  some, List, [], ◌∷◌, ◌++◌, arith, length, length-append, length-drop, drop, ltb, if◌then◌else◌,
  Bool-cases, append_assoc, drop-append, drop-drop, if_true, if_false, length_zero,
}
use cadeloop.Prelude.Partial.{◌>>=◌, Yields, yields, Yields-value}
use cadeloop.Ws.{ParseOne, need_more, continue, event, WsEvent}
use cadeloop.Ws.Rx.{
  WsRx, parse_one, parse_loop, parse_all, push, push_from, push_fresh, push_behind, is_last,
}
use cadeloop.Ws.Rx.Stable.{parse_one-append}
use cadeloop.Ws.Rx.Frames.{
  Keeps, Keeps-trans, Parsed-Keeps, Parsed, waits, rejects, gives, grows, parse_one-Parsed,
}

-- Where the loop stops: the state, the events and the bytes that wait, or the end of the stream.
pub data Stop : Type 0 where
  open_at : WsRx → List WsEvent → List ℕ → Stop
  over : WsRx → List WsEvent → Stop

-- The rounds of `parse_all` over the bytes `b`.
pub data Reads : WsRx → List ℕ → List WsEvent → Stop → Type 0 where
  stays :
      {rx : WsRx} {b : List ℕ} {out : List WsEvent}
      → parse_one rx b ≡ (rx, need_more)
      → Reads rx b out (open_at rx out b)
  ends :
      {rx : WsRx} {b : List ℕ} {out : List WsEvent} (rx' : WsRx) (ev : WsEvent)
      → parse_one rx b ≡ (rx', event ev)
      → is_last ev ≡ true
      → Reads rx b out (over (record rx' { ended = true; buf = [] }) (out ++ ev ∷ []))
  delivers :
      {rx : WsRx} {b : List ℕ} {out : List WsEvent} {s : Stop} (rx' : WsRx) (ev : WsEvent)
      → parse_one rx b ≡ (rx', event ev)
      → is_last ev ≡ false
      → 0 < rx'.consumed
      → rx'.consumed ≤ length b
      → Reads rx' (drop rx'.consumed b) (out ++ ev ∷ []) s
      → Reads rx b out s
  joins :
      {rx : WsRx} {b : List ℕ} {out : List WsEvent} {s : Stop} (rx' : WsRx)
      → parse_one rx b ≡ (rx', continue)
      → 0 < rx'.consumed
      → rx'.consumed ≤ length b
      → Reads rx' (drop rx'.consumed b) out s
      → Reads rx b out s

more_event :
    (rx : WsRx) (b c : List ℕ) {rx' : WsRx} {ev : WsEvent}
    → parse_one rx b ≡ (rx', event ev)
    → parse_one rx (b ++ c) ≡ (rx', event ev)
more_event rx b c e = elim (parse_one-append b c rx) [
  | inl w ↦ absurd (cc (ap (λ r. r.1) (sym w ∙ e)))
  | inr s ↦ s ∙ e
]

more_continue :
    (rx : WsRx) (b c : List ℕ) {rx' : WsRx}
    → parse_one rx b ≡ (rx', continue)
    → parse_one rx (b ++ c) ≡ (rx', continue)
more_continue rx b c e = elim (parse_one-append b c rx) [
  | inl w ↦ absurd (cc (ap (λ r. r.1) (sym w ∙ e)))
  | inr s ↦ s ∙ e
]

-- How a stop goes on with the bytes `c`: one that waits reads on, and the end stays.
abbrev Onward : List ℕ → Stop → Stop → Type 0
Onward c (open_at rx out rest) t = Reads rx (rest ++ c) out t
Onward c (over rx out) t = over rx out ≡ t

Reads-append :
    {rx : WsRx} {b : List ℕ} {out : List WsEvent} {s : Stop} (c : List ℕ) (t : Stop)
    → Reads rx b out s
    → Onward c s t
    → Reads rx (b ++ c) out t
Reads-append c t (stays e) o = o
Reads-append {rx} {b} {out} c t (ends rx' ev e l) o =
    subst (Reads rx (b ++ c) out) o (ends rx' ev (more_event rx b c e) l)
Reads-append {rx} {b} {out} c t (delivers rx' ev e l pos le r) o =
    delivers rx' ev (more_event rx b c e) l pos (omega (arith, length-append b c))
      (rw (drop-append rx'.consumed b c le) (Reads-append c t r o))
Reads-append {rx} {b} {out} c t (joins rx' e pos le r) o =
    joins rx' (more_continue rx b c e) pos (omega (arith, length-append b c))
      (rw (drop-append rx'.consumed b c le) (Reads-append c t r o))

-- One round, and the rounds on fewer bytes.
Reads-round :
    (rx : WsRx) (b : List ℕ) (out : List WsEvent) {r : WsRx × ParseOne}
    → ((rx' : WsRx) (k : ℕ) (out' : List WsEvent)
        → 0 < k
        → k ≤ length b
        → (s : Stop) × Reads rx' (drop k b) out' s)
    → parse_one rx b ≡ r
    → Parsed rx b r
    → (s : Stop) × Reads rx b out s
Reads-round rx b out more e (waits lt) = (_, stays e)
Reads-round rx b out more e (rejects code why) = (_, ends _ _ e refl)
Reads-round rx b out more e (gives rx' ev k pos le fits) = elim (Bool-cases (is_last ev)) [
  | inl l ↦ (_, ends rx' ev e l)
  | inr l ↦
      let (s, r) = more rx' rx'.consumed (out ++ ev ∷ []) pos le in
      (s, delivers rx' ev e l pos le r)
]
Reads-round rx b out more e (grows rx' k pos le) =
    let (s, r) = more rx' rx'.consumed out pos le in (s, joins rx' e pos le r)

-- Every stream stops.
pub Reads-total :
    (n : ℕ) (rx : WsRx) (b : List ℕ) (out : List WsEvent)
    → length b < n
    → (s : Stop) × Reads rx b out s
Reads-total zero rx b out h = absurd (omega arith)
Reads-total (suc n) rx b out h =
    Reads-round rx b out
      (λ rx' k out' pos le. Reads-total n rx' (drop k b) out' (omega (arith, length-drop k b))) refl
      (parse_one-Parsed rx b)

-- What `parse_loop` hands back of a stop.
pub data Stopped (b : List ℕ) : Stop → (WsRx × List WsEvent) × ℕ → Type 0 where
  waiting :
      (rx : WsRx) (out : List WsEvent) (pos : ℕ)
      → pos ≤ length b
      → Stopped b (open_at rx out (drop pos b)) ((rx, out), pos)
  closed : (rx : WsRx) (out : List WsEvent) (pos : ℕ) → Stopped b (over rx out) ((rx, out), pos)

parse_loop-Stopped :
    (fuel : ℕ) {rx : WsRx} (b : List ℕ) (pos : ℕ) {out : List WsEvent} {s : Stop}
    → Reads rx (drop pos b) out s
    → pos ≤ length b
    → length b < pos + fuel
    → Yields (Stopped b s) (parse_loop fuel rx b pos out)
unfolding parse_loop
parse_loop-Stopped zero b pos r le lt = absurd (omega arith)
parse_loop-Stopped (suc fuel) b pos (stays e) le lt =
    rw (parse_loop, e, e) (yields (waiting _ _ pos le))
parse_loop-Stopped (suc fuel) b pos (ends rx' ev e l) le lt =
    rw (parse_loop, e, l, e) (yields (closed _ _ _))
parse_loop-Stopped (suc fuel) b pos {s} (delivers rx' ev e l p q r) le lt =
    let size = length-drop pos b in
    rw (parse_loop, e, l, e)
      (parse_loop-Stopped fuel b (pos + rx'.consumed) (rw (drop-drop pos rx'.consumed b) r)
        (omega arith) (omega arith))
parse_loop-Stopped (suc fuel) b pos (joins rx' e p q r) le lt =
    let size = length-drop pos b in
    rw (parse_loop, e, e)
      (parse_loop-Stopped fuel b (pos + rx'.consumed) (rw (drop-drop pos rx'.consumed b) r)
        (omega arith) (omega arith))

-- The state and the events that a push leaves.
abbrev pub left : Stop → WsRx × List WsEvent
left (open_at rx out rest) = (record rx { buf = rest }, out)
left (over rx out) = (rx, out)

abbrev pub emptied : WsRx → WsRx
emptied rx = record rx { buf = [] }

-- A stop leaves what `Keeps` says, and the end of the stream is marked.
abbrev Final : WsRx → Stop → Type 0
Final rx (open_at rx1 out rest) = Keeps rx rx1
Final rx (over rx1 out) =
    (rx1.ended ≡ true) × (length rx.frag ≤ rx.max_message → length rx1.frag ≤ rx.max_message)

pub parse_one-Keeps :
    (rx : WsRx) (b : List ℕ) {r : WsRx × ParseOne} → parse_one rx b ≡ r → Keeps rx r.0
parse_one-Keeps rx b e = subst (λ r. Keeps rx r.0) e (Parsed-Keeps (parse_one-Parsed rx b))

Final-after : {x y : WsRx} (s : Stop) → Keeps x y → Final y s → Final x s
Final-after (open_at rx1 out rest) k f = Keeps-trans k f
Final-after (over rx1 out) k (e, le) = (
  e,
  λ h. omega (arith, k.max_message, k.bounded h, le (omega (arith, k.max_message, k.bounded h))),
)

Reads-Final :
    {rx : WsRx} {b : List ℕ} {out : List WsEvent} {s : Stop} → Reads rx b out s → Final rx s
Reads-Final {rx} {b} (stays e) = parse_one-Keeps rx b e
Reads-Final {rx} {b} (ends rx' ev e l) = (refl, (parse_one-Keeps rx b e).bounded)
Reads-Final {rx} {b} {s} (delivers rx' ev e l p q r) =
    Final-after s (parse_one-Keeps rx b e) (Reads-Final r)
Reads-Final {rx} {b} {s} (joins rx' e p q r) =
    Final-after s (parse_one-Keeps rx b e) (Reads-Final r)

-- `push` with nothing carried over keeps the tail that was not used.
fresh_left :
    (rx : WsRx) (d : List ℕ) {s : Stop} {v : (WsRx × List WsEvent) × ℕ}
    → Stopped d s v
    → Final rx s
    → rx.ended ≡ false
    → rx.buf ≡ []
    → (
      if not v.0.0.ended && ltb v.1 (length d)
          then record v.0.0 { buf = v.0.0.buf ++ drop v.1 d }
          else v.0.0,
      v.0.1,
    )
      ≡ left s
fresh_left rx d (waiting rx1 out pos le) k live none_kept =
    let open_still : rx1.ended ≡ false = k.ended ∙ live in
    let cleared : rx1.buf ≡ [] = k.buf ∙ none_kept in
    ap (λ (r : WsRx). (r, out))
      (elim (Bool-cases (ltb pos (length d))) [
        | inl more ↦
            if_true (not rx1.ended && ltb pos (length d)) _ _ (ground arith)
            ∙ ap (λ l. record rx1 { buf = l ++ drop pos d }) cleared
        | inr done ↦
            let none_left : drop pos d ≡ [] =
              length_zero (drop pos d) (ground (arith, length-drop pos d)) in
            if_false (not rx1.ended && ltb pos (length d)) _ _ (ground arith)
            ∙ ap (λ l. record rx1 { buf = l }) (cleared ∙ sym none_left)
      ])
fresh_left rx d (closed rx1 out pos) (e, le) live none_kept =
    ap (λ (r : WsRx). (r, out)) (if_false (not rx1.ended && ltb pos (length d)) _ _ (ground arith))

carried_left :
    (rx : WsRx) (b : List ℕ) {s : Stop} {v : (WsRx × List WsEvent) × ℕ}
    → Stopped b s v
    → Final rx s
    → rx.ended ≡ false
    → (if not v.0.0.ended then record v.0.0 { buf = drop v.1 b } else v.0.0, v.0.1) ≡ left s
carried_left rx b (waiting rx1 out pos le) k live =
    let open_still : rx1.ended ≡ false = k.ended ∙ live in
    ap (λ (r : WsRx). (r, out)) (if_true (not rx1.ended) _ _ (ground arith))
carried_left rx b (closed rx1 out pos) (e, le) live =
    ap (λ (r : WsRx). (r, out)) (if_false (not rx1.ended) _ _ (ground arith))

parse_all-Stopped :
    {rx : WsRx} (b : List ℕ) {out : List WsEvent} {s : Stop}
    → Reads rx b out s
    → Yields (Stopped b s) (parse_all rx b out)
unfolding parse_all
parse_all-Stopped b r = parse_loop-Stopped (length b + 1) b 0 r (omega arith) (omega arith)

push_from-left :
    (rx : WsRx) (buf d : List ℕ) (out : List WsEvent) {s : Stop}
    → rx.buf ≡ buf
    → rx.ended ≡ false
    → Reads (emptied rx) (buf ++ d) out s
    → push_from false buf rx d out ≡ some (left s)
unfolding push_from push_fresh push_behind
push_from-left rx [] d out {s} none_kept live r =
    let r' : Reads rx d out s =
      subst (λ l. Reads (record rx { buf = l }) d out s) (sym none_kept) r in
    let (v, e, st) = Yields-value (parse_all-Stopped d r') in
    rw e (ap some (fresh_left rx d st (Reads-Final r') live none_kept))
push_from-left rx (x ∷ l) d out kept live r =
    let (v, e, st) = Yields-value (parse_all-Stopped ((x ∷ l) ++ d) r) in
    rw e (ap some (carried_left (emptied rx) ((x ∷ l) ++ d) st (Reads-Final r) live))

-- The state and the events that a push leaves.
pub push-left :
    (rx : WsRx) (d : List ℕ) (out : List WsEvent) {s : Stop}
    → rx.ended ≡ false
    → Reads (emptied rx) (rx.buf ++ d) out s
    → push rx d out ≡ some (left s)
unfolding push
push-left rx d out {s} live r =
    subst (λ t. push_from t rx.buf rx d out ≡ some (left s)) (sym live)
      (push_from-left rx rx.buf d out refl live r)

pub push_ended :
    (rx : WsRx) (d : List ℕ) (out : List WsEvent) → rx.ended ≡ true → push rx d out ≡ some (rx, out)
unfolding push push_from
push_ended rx d out e = subst (λ t. push_from t rx.buf rx d out ≡ some (rx, out)) (sym e) refl

-- The second push, from where the first one stopped.
second_push :
    (rx : WsRx) (a c : List ℕ) (out : List WsEvent) (s : Stop)
    → rx.ended ≡ false
    → Reads (emptied rx) (rx.buf ++ a) out s
    → (r : WsRx × List WsEvent) × (push rx (a ++ c) out ≡ some r)
      × (push (left s).0 c (left s).1 ≡ some r)
second_push rx a c out (over rx1 out1) live r =
    let whole =
      push-left rx (a ++ c) out {s = over rx1 out1} live
        (rw (sym (append_assoc rx.buf a c)) (Reads-append c (over rx1 out1) r refl)) in
    ((rx1, out1), whole, push_ended rx1 c out1 (Reads-Final r).0)
second_push rx a c out (open_at rx1 out1 rest) live r =
    let k = Reads-Final r in
    let (t, q) = Reads-total (length (rest ++ c) + 1) rx1 (rest ++ c) out1 (omega arith) in
    let q' : Reads (record rx1 { buf = [] }) (rest ++ c) out1 t =
      subst (λ l. Reads (record rx1 { buf = l }) (rest ++ c) out1 t) k.buf q in
    let whole =
      push-left rx (a ++ c) out {s = t} live
        (rw (sym (append_assoc rx.buf a c)) (Reads-append c t r q)) in
    (left t, whole, push-left (record rx1 { buf = rest }) c out1 (k.ended ∙ live) q')

-- However a stream is cut into two reads: pushing both parts, one after the other, returns, and leaves the
-- same state and the same events as pushing them in one read.
pub push_split :
    (rx : WsRx) (a c : List ℕ) (out : List WsEvent)
    → (r : WsRx × List WsEvent) × (push rx (a ++ c) out ≡ some r)
      × ((push rx a out >>= λ (rx', out'). push rx' c out') ≡ some r)
push_split rx a c out = elim (Bool-cases rx.ended) [
  | inl e ↦
      ((rx, out), push_ended rx (a ++ c) out e, rw (push_ended rx a out e) (push_ended rx c out e))
  | inr live ↦
      let (s, r) =
        Reads-total (length (rx.buf ++ a) + 1) (emptied rx) (rx.buf ++ a) out (omega arith) in
      let (v, whole, rest) = second_push rx a c out s live r in
      (v, whole, rw (push-left rx a out live r) rest)
]
