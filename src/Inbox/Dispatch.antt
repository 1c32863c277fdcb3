-- ===== src/Inbox/Dispatch.antt =====
-- The dispatch of inbound events (crates/pyshim/src/net.rs).
use cadeloop.Prelude.{
  ℕ, ◌≡◌, sym, ◌∙◌, ap, true, false, ◌||◌, List, [], ◌∷◌, ◌++◌, map, append_assoc, arith,
}
use cadeloop.Inbox.{
  byte, ended, InboundEvent, plain_data, held_data, buf_data, eof, recv_failed, ReadSide, hold,
  route_inbound, route_eof, dispatch_from,
}
use cadeloop.Inbox.Bytes.{waiting, ends_last, held_signals}
use cadeloop.Inbox.Order.{
  IsFront, Agrees, Agrees-as, IsFree, IsReading, IsOrdered, either-IsOrdered, whole-IsOrdered,
  hold-IsWhole, hold_ended-IsWhole, shut-IsOrdered, teardown_with-IsOrdered,
}

-- Dispatch: what the first event stands for comes before what waits behind it.
route_inbound-IsOrdered :
    (r : ReadSide) (bytes : List ℕ)
    → IsFront r.told r.received
    → ends_last r.told ≡ true
    → (r.closing ≡ false
        → r.conn_lost ≡ false
        → Agrees
            (r.told
              ++ (held_signals r.paused_recv r.paused_eof ++ (map byte bytes ++ waiting r.events)))
            r.received)
    → (r.closing ≡ false → r.conn_lost ≡ false → IsFree r)
    → (r.closing ≡ false → r.conn_lost ≡ false → IsReading r)
    → IsOrdered (route_inbound r bytes)
unfolding route_inbound
route_inbound-IsOrdered r bytes a o w f g =
    either-IsOrdered (r.conn_lost || r.closing) (λ s. shut-IsOrdered r a o (ground arith))
      (λ s.
        let c : r.closing ≡ false = ground arith in
        let l : r.conn_lost ≡ false = ground arith in
        let m = map byte bytes in
        either-IsOrdered r.reading_paused
          (λ p.
            whole-IsOrdered (hold r bytes) (hold-IsWhole r bytes (waiting r.events) (w c l))
              (λ q. cc) (λ c l q. cc))
          (λ p.
            whole-IsOrdered (record r { told = r.told ++ m })
              (Agrees-as
                (ap (λ k. (r.told ++ m) ++ (k ++ waiting r.events)) (f c l p)
                  ∙ append_assoc r.told m (waiting r.events)
                  ∙ ap (λ k. r.told ++ (k ++ (m ++ waiting r.events))) (sym (f c l p)))
                (w c l))
              (f c l) g))

route_eof-IsOrdered :
    (r : ReadSide)
    → IsFront r.told r.received
    → ends_last r.told ≡ true
    → (r.closing ≡ false
        → r.conn_lost ≡ false
        → Agrees
            (r.told ++ (held_signals r.paused_recv r.paused_eof ++ (ended ∷ waiting r.events)))
            r.received)
    → (r.closing ≡ false → r.conn_lost ≡ false → IsFree r)
    → (r.closing ≡ false → r.conn_lost ≡ false → IsReading r)
    → IsOrdered (route_eof r)
unfolding route_eof
route_eof-IsOrdered r a o w f g =
    either-IsOrdered (r.conn_lost || r.closing) (λ s. shut-IsOrdered r a o (ground arith))
      (λ s.
        let c : r.closing ≡ false = ground arith in
        let l : r.conn_lost ≡ false = ground arith in
        either-IsOrdered r.reading_paused
          (λ p.
            whole-IsOrdered (record r { paused_eof = true })
              (hold_ended-IsWhole r (waiting r.events) (w c l)) (λ q. cc) (λ c l q. cc))
          (λ p.
            whole-IsOrdered (record r { told = r.told ++ ended ∷ [] })
              (Agrees-as
                (ap (λ k. (r.told ++ ended ∷ []) ++ (k ++ waiting r.events)) (f c l p)
                  ∙ append_assoc r.told (ended ∷ []) (waiting r.events)
                  ∙ ap (λ k. r.told ++ (k ++ (ended ∷ waiting r.events))) (sym (f c l p)))
                (w c l))
              (f c l) g))

pub dispatch_from-IsOrdered :
    (r : ReadSide) (events : List InboundEvent)
    → IsOrdered (record r { events = events })
    → IsOrdered r
    → IsOrdered (dispatch_from r events)
dispatch_from-IsOrdered r [] v v' = v'
dispatch_from-IsOrdered r (plain_data d ∷ l) v v' =
    route_inbound-IsOrdered (record r { events = l }) d v.ahead v.last v.whole v.free v.reading
dispatch_from-IsOrdered r (held_data d ∷ l) v v' =
    route_inbound-IsOrdered (record r { events = l }) d v.ahead v.last v.whole v.free v.reading
dispatch_from-IsOrdered r (buf_data d ∷ l) v v' =
    route_inbound-IsOrdered (record r { events = l }) d v.ahead v.last v.whole v.free v.reading
dispatch_from-IsOrdered r (eof ∷ l) v v' =
    route_eof-IsOrdered (record r { events = l }) v.ahead v.last v.whole v.free v.reading
dispatch_from-IsOrdered r (recv_failed code ∷ l) v v' =
    teardown_with-IsOrdered (record r { events = l }) code v.ahead v.last
