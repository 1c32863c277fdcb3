-- ===== src/Ws/Rx/Message.antt =====
-- Messages in fragments, through `WsRx::push` of crates/core/src/ws.rs.
use cadeloop.Prelude.{
  ℕ, ◌+◌, ◌^◌, ◌≤◌, ◌<◌, ◌≡◌, refl, sym, ap, ap₂, ◌∙◌, subst, ◌⊎◌, inl, inr, Bool, true, false,
  none, some, List, [], ◌∷◌, ◌++◌, arith, length, length-append, drop, ltb, ◌==◌, if◌then◌else◌,
  append_assoc, append-nil, drop-front,
}
use cadeloop.Prelude.Partial.{Yields, yields}
use cadeloop.Ws.{op_cont, op_text, op_binary, need_more, continue, event, WsEvent, text, binary}
use cadeloop.Ws.Utf8.{is_utf8, from_utf8}
use cadeloop.Ws.Rx.{
  WsRx, client_frame, parse_one, dispatch, data_frame, cont_frame, finish_message, push, is_last,
}
use cadeloop.Ws.Rx.Stream.{Stop, open_at, Reads, stays, delivers, joins, emptied, push-left}
use cadeloop.Ws.Rx.RoundTrip.{parse_one-client_frame}

unfoldable pub concat : List (List ℕ) → List ℕ
concat [] = []
concat (p ∷ ps) = p ++ concat ps

-- The message `p ++ concat ps` in as many frames as there are parts, the last one with its FIN bit set.
unfoldable pub fragments : List ℕ → ℕ → List ℕ → List (List ℕ) → List ℕ
fragments mask opcode p [] = client_frame mask opcode p true
fragments mask opcode p (q ∷ ps) = client_frame mask opcode p false ++ fragments mask op_cont q ps

-- What a whole message is delivered as.
abbrev pub delivered : ℕ → List ℕ → WsEvent
delivered opcode l = if opcode == op_text then text l else binary l

-- A text must be UTF-8.
abbrev pub IsMessage : ℕ → List ℕ → Type 0
IsMessage opcode l = ((opcode ≡ op_text) × (is_utf8 l ≡ true)) ⊎ (opcode ≡ op_binary)

finish_message-delivered :
    (opcode : ℕ) (l : List ℕ)
    → IsMessage opcode l
    → (finish_message opcode l ≡ event (delivered opcode l))
      × (is_last (delivered opcode l) ≡ false)
unfolding finish_message from_utf8
finish_message-delivered opcode l (inl (e, u)) = rw (e, u) (refl, refl)
finish_message-delivered opcode l (inr e) = rw e (refl, refl)

parse_one-nothing : (rx : WsRx) → parse_one rx [] ≡ (rx, need_more)
unfolding parse_one
parse_one-nothing rx = refl

module _ (rx : WsRx) (mask : List ℕ) (four : length mask ≡ 4) where
  abbrev gathering : ℕ → ℕ → List ℕ → WsRx
  gathering k opcode acc = record rx { consumed = k; frag_op = some opcode; frag = acc }

  abbrev whole_again : ℕ → WsRx
  whole_again k = record rx { consumed = k; frag_op = none; frag = [] }

  -- A frame at the front is consumed, and what follows it is read.
  behind :
      (rx' : WsRx) (frame rest : List ℕ)
      → rx'.consumed ≡ length frame
      → (rx'.consumed ≤ length (frame ++ rest)) × (drop rx'.consumed (frame ++ rest) ≡ rest)
  behind rx' frame rest e =
      (omega (arith, length-append frame rest), drop-front frame rest rx'.consumed (sym e))

  frame_not_empty :
      (opcode : ℕ) (p : List ℕ) (fin : Bool) → 0 < length (client_frame mask opcode p fin)
  unfolding client_frame
  frame_not_empty opcode p fin = omega arith

  cont_last :
      (k opcode : ℕ) (acc q : List ℕ)
      → length (acc ++ q) ≤ rx.max_message
      → dispatch (record (gathering 0 opcode acc) { consumed = k }) true op_cont q
        ≡ (whole_again k, finish_message opcode (acc ++ q))
  unfolding dispatch cont_frame
  cont_last k opcode acc q fits =
      let room : ltb rx.max_message (length acc + length q) ≡ false =
        ground (arith, length-append acc q) in
      rw room refl

  cont_more :
      (k opcode : ℕ) (acc q : List ℕ)
      → length (acc ++ q) ≤ rx.max_message
      → dispatch (record (gathering 0 opcode acc) { consumed = k }) false op_cont q
        ≡ (gathering k opcode (acc ++ q), continue)
  unfolding dispatch cont_frame
  cont_more k opcode acc q fits =
      let room : ltb rx.max_message (length acc + length q) ≡ false =
        ground (arith, length-append acc q) in
      rw room refl

  Reads-last :
      (rx' : WsRx) (frame : List ℕ) {out : List WsEvent} {ev : WsEvent}
      → parse_one rx' (frame ++ []) ≡ (whole_again (length frame), event ev)
      → is_last ev ≡ false
      → 0 < length frame
      → Reads rx' frame out (open_at (whole_again (length frame)) (out ++ ev ∷ []) [])
  Reads-last rx' frame {out} {ev} e l pos =
      let done = whole_again (length frame) in
      let (le, rest) = behind done frame [] refl in
      subst (λ b. Reads rx' b out (open_at done (out ++ ev ∷ []) [])) (append-nil frame)
        (delivers done ev e l pos le (rw rest (stays (parse_one-nothing done))))

  Reads-more :
      (rx' rx'' : WsRx) (frame rest : List ℕ) {out : List WsEvent} {s : Stop}
      → parse_one rx' (frame ++ rest) ≡ (rx'', continue)
      → rx''.consumed ≡ length frame
      → 0 < length frame
      → Reads rx'' rest out s
      → Reads rx' (frame ++ rest) out s
  Reads-more rx' rx'' frame rest e c pos r =
      let (le, at) = behind rx'' frame rest c in joins rx'' e (omega arith) le (rw at r)

  Reads-rest :
      (k opcode : ℕ) (acc q : List ℕ) (ps : List (List ℕ)) (out : List WsEvent)
      → IsMessage opcode (acc ++ (q ++ concat ps))
      → length (acc ++ (q ++ concat ps)) ≤ rx.max_message
      → length (acc ++ (q ++ concat ps)) < 2 ^ 63
      → (k' : ℕ) × Reads
          (gathering k opcode acc)
          (fragments mask op_cont q ps)
          out
          (open_at (whole_again k') (out ++ delivered opcode (acc ++ (q ++ concat ps)) ∷ []) [])
  unfolding fragments concat
  Reads-rest k opcode acc q [] out good fits small =
      let none_more = append-nil q in
      let (e, l) = finish_message-delivered opcode (acc ++ (q ++ [])) good in
      let n = length (client_frame mask op_cont q true) in
      let sizes = length-append acc (q ++ []) in
      let same : acc ++ q ≡ acc ++ (q ++ []) = ap (λ l. acc ++ l) (sym none_more) in
      let parsed =
        parse_one-client_frame (gathering k opcode acc) mask q [] op_cont true four
          (omega arith, inl (omega arith)) (omega (arith, ap length none_more))
          (omega (arith, ap length none_more)) in
      let step =
        parsed
        ∙ cont_last n opcode acc q (omega (arith, ap length same))
        ∙ ap (λ l. (whole_again n, finish_message opcode l)) same
        ∙ ap (λ r. (whole_again n, r)) e in
      (
        n,
        Reads-last (gathering k opcode acc) (client_frame mask op_cont q true) step l
            (frame_not_empty op_cont q true),
      )
  Reads-rest k opcode acc q (p ∷ ps) out good fits small =
      let n = length (client_frame mask op_cont q false) in
      let tail = fragments mask op_cont p ps in
      let total : (acc ++ q) ++ (p ++ concat ps) ≡ acc ++ (q ++ (p ++ concat ps)) =
        append_assoc acc q (p ++ concat ps) in
      let room : length acc + length q ≤ length (acc ++ (q ++ (p ++ concat ps))) =
        omega
          (arith, length-append acc (q ++ (p ++ concat ps)), length-append q (p ++ concat ps)) in
      let step =
        parse_one-client_frame (gathering k opcode acc) mask q tail op_cont false four
          (omega arith, inl (omega arith)) (omega arith) (omega arith)
        ∙ cont_more n opcode acc q (omega (arith, length-append acc q)) in
      let (k', r) =
        Reads-rest n opcode (acc ++ q) p ps out (subst (IsMessage opcode) (sym total) good)
          (omega (arith, ap length total)) (omega (arith, ap length total)) in
      (
        k',
        Reads-more (gathering k opcode acc) (gathering n opcode (acc ++ q))
            (client_frame mask op_cont q false) tail step refl (frame_not_empty op_cont q false)
            (subst
              (λ l.
                Reads (gathering n opcode (acc ++ q)) tail out
                  (open_at (whole_again k') (out ++ delivered opcode l ∷ []) []))
              total r),
      )

  data_last :
      (k opcode : ℕ) (p : List ℕ)
      → (opcode ≡ op_text) ⊎ (opcode ≡ op_binary)
      → dispatch (record (whole_again 0) { consumed = k }) true opcode p
        ≡ (whole_again k, finish_message opcode p)
  unfolding dispatch data_frame
  data_last k opcode p (inl e) = rw e refl
  data_last k opcode p (inr e) = rw e refl

  data_more :
      (k opcode : ℕ) (p : List ℕ)
      → (opcode ≡ op_text) ⊎ (opcode ≡ op_binary)
      → dispatch (record (whole_again 0) { consumed = k }) false opcode p
        ≡ (gathering k opcode p, continue)
  unfolding dispatch data_frame
  data_more k opcode p (inl e) = rw e refl
  data_more k opcode p (inr e) = rw e refl

  kind_of :
      (opcode : ℕ) (l : List ℕ) → IsMessage opcode l → (opcode ≡ op_text) ⊎ (opcode ≡ op_binary)
  kind_of opcode l (inl (e, u)) = inl e
  kind_of opcode l (inr e) = inr e

  low_opcode : {opcode : ℕ} → (opcode ≡ op_text) ⊎ (opcode ≡ op_binary) → opcode < 8
  low_opcode (inl e) = omega arith
  low_opcode (inr e) = omega arith

  Reads-message :
      (k opcode : ℕ) (p : List ℕ) (ps : List (List ℕ)) (out : List WsEvent)
      → IsMessage opcode (p ++ concat ps)
      → length (p ++ concat ps) ≤ rx.max_message
      → length (p ++ concat ps) < 2 ^ 63
      → (k' : ℕ) × Reads
          (whole_again k)
          (fragments mask opcode p ps)
          out
          (open_at (whole_again k') (out ++ delivered opcode (p ++ concat ps) ∷ []) [])
  unfolding fragments concat
  Reads-message k opcode p [] out good fits small =
      let none_more = append-nil p in
      let (e, l) = finish_message-delivered opcode (p ++ []) good in
      let n = length (client_frame mask opcode p true) in
      let low = low_opcode (kind_of opcode (p ++ []) good) in
      let step =
        parse_one-client_frame (whole_again k) mask p [] opcode true four
          (omega (arith, low), inl low) (omega (arith, ap length none_more))
          (omega (arith, ap length none_more))
        ∙ data_last n opcode p (kind_of opcode (p ++ []) good)
        ∙ ap (λ l. (whole_again n, finish_message opcode l)) (sym none_more)
        ∙ ap (λ r. (whole_again n, r)) e in
      (
        n,
        Reads-last (whole_again k) (client_frame mask opcode p true) step l
            (frame_not_empty opcode p true),
      )
  Reads-message k opcode p (q ∷ ps) out good fits small =
      let n = length (client_frame mask opcode p false) in
      let low = low_opcode (kind_of opcode (p ++ (q ++ concat ps)) good) in
      let tail = fragments mask op_cont q ps in
      let sizes = length-append p (q ++ concat ps) in
      let step =
        parse_one-client_frame (whole_again k) mask p tail opcode false four
          (omega (arith, low), inl low) (omega arith) (omega arith)
        ∙ data_more n opcode p (kind_of opcode (p ++ (q ++ concat ps)) good) in
      let (k', r) = Reads-rest n opcode p q ps out good fits small in
      (
        k',
        Reads-more (whole_again k) (gathering n opcode p) (client_frame mask opcode p false) tail
            step refl (frame_not_empty opcode p false) r,
      )

-- A receiver that waits for a message, with nothing carried over.
pub record IsIdle (rx : WsRx) : Type 0 where
  pub buf : rx.buf ≡ []
  pub frag_op : rx.frag_op ≡ none
  pub frag : rx.frag ≡ []
  pub ended : rx.ended ≡ false

-- A message that a client sends in fragments, however many, is delivered whole by a push of them: as text
-- if it is UTF-8 and framed as text, or as binary. The receiver, which was idle, is idle again. The message
-- keeps to the limit and to the 63 bits of the length field.
pub push_message :
    (rx : WsRx) (mask : List ℕ) (opcode : ℕ) (p : List ℕ) (ps : List (List ℕ)) (out : List WsEvent)
    → IsIdle rx
    → length mask ≡ 4
    → IsMessage opcode (p ++ concat ps)
    → length (p ++ concat ps) ≤ rx.max_message
    → length (p ++ concat ps) < 2 ^ 63
    → Yields
        (λ r. IsIdle r.0 × (r.1 ≡ out ++ delivered opcode (p ++ concat ps) ∷ []))
        (push rx (fragments mask opcode p ps) out)
push_message rx mask opcode p ps out idle four good fits small =
    let sent = fragments mask opcode p ps in
    let start = emptied rx in
    let (k', r) = Reads-message start mask four rx.consumed opcode p ps out good fits small in
    let stop =
      open_at (whole_again start mask four k') (out ++ delivered opcode (p ++ concat ps) ∷ []) [] in
    let as_idle : whole_again start mask four rx.consumed ≡ start =
      ap₂ (λ o l. record start { frag_op = o; frag = l }) (sym idle.frag_op) (sym idle.frag) in
    let r' : Reads start sent out stop = subst (λ x. Reads x sent out stop) as_idle r in
    let r'' : Reads start (rx.buf ++ sent) out stop =
      subst (λ l. Reads start (l ++ sent) out stop) (sym idle.buf) r' in
    subst (Yields _) (sym (push-left rx sent out idle.ended r''))
      (yields (record { buf = refl; frag_op = refl; frag = refl; ended = idle.ended }, refl))
