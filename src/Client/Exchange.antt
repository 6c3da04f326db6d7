-- ===== src/Client/Exchange.antt =====
-- One exchange of two clients: a message, and its acknowledgement.
use upush_chat.Base.{
  suc, ◌≤◌, ◌<◌, ◌≡◌, refl, sym, ap, ◌∙◌, subst, Bool, false, some, [], ◌∷◌, ◌++◌, arith, Bytes,
  length, All, inl, inr,
}
use upush_chat.Int.{pos, eq_ℤ}
use upush_chat.Common.{bufsize}
use upush_chat.Network.{SockaddrIn}
use upush_chat.Outcome.{ok}
use upush_chat.Sequence.{get_last?, drop_last, update_first, update_last}
use upush_chat.Sequence.Ends.{
  get_last?-append, get_last?-map, drop_last-map, get_last?-cases, All-drop_last, All-get_last?,
}
use upush_chat.Contacts.{
  Message, Contact, compare_address, toggle_last_pkt_sent, add_message_send_attempt,
}
use upush_chat.Server.Requests.{IsNick}
use upush_chat.Client.{World, Client}
use upush_chat.Client.ToClient.{packet_text, register_ack_message}
use upush_chat.Client.Acknowledging.{payloads, payloads-update_last}
use upush_chat.Client.Packets.{IsText, packet_text-spaced, message, length-message}
use upush_chat.Client.Delivery.{Steady, received_by, settled, last-settled, next_sent, next-sent}
use upush_chat.Client.Link.{
  Linked, Underway, exchange, number_after, message-delivered, ack-delivered, still-Linked,
}

module _ (w v : World) (hw : Steady w) (hv : Steady v) (old : Bool) (a b : SockaddrIn)
    (s r : Client) (c d : Contact) (x : Bytes) (l : Underway old a b s r c d)
    (oldest : get_last? (payloads c.message_list) ≡ some x) where
  -- The exchange succeeds; the oldest text is shown unless it was, and no longer in the queue.
  abbrev pub Exchanged : Type 0
  Exchanged =
      (s_end : Client) × (c_end d_end : Contact) × (exchange w v a b s r
        ≡ ok (s_end, (received_by old s.client_nick c.last_pkt_sent d x r)))
      × Linked a b s_end (received_by old s.client_nick c.last_pkt_sent d x r) c_end d_end
      × (payloads c_end.message_list ≡ drop_last (payloads c.message_list))
      × (d_end.nick ≡ d.nick)

  exchange-delivers :
      (c_end : Contact) (t : Client)
      → register_ack_message (pos c.last_pkt_sent) c w s ≡ ok (c_end, t)
      → exchange w v a b s r
        ≡ ok (
          record t { contact_list = update_first (compare_address b) (λ _. c_end) t.contact_list },
          (received_by old s.client_nick c.last_pkt_sent d x r),
        )
  unfolding exchange
  exchange-delivers c_end t registered =
      rw
        (
          message-delivered w v hw hv old a b s r c d x l oldest,
          ack-delivered w v hw hv old a b s r c d x l oldest c_end t registered,
        )
        refl

  payloads-rest : payloads (drop_last c.message_list) ≡ drop_last (payloads c.message_list)
  payloads-rest = drop_last-map (λ m. m.payload) c.message_list

  next_number : number_after c.last_pkt_sent ≤ 1
  next_number = ground arith

  new_number : eq_ℤ (pos (number_after c.last_pkt_sent)) (pos c.last_pkt_sent) ≡ false
  new_number = let small = l.small in ground arith

  next_text :
      (next : Message)
      → packet_text s (toggle_last_pkt_sent c) next
        ≡ message (number_after c.last_pkt_sent) s.client_nick c.nick next.payload
  unfolding toggle_last_pkt_sent
  next_text next = packet_text-spaced s (toggle_last_pkt_sent c) next

  next-fits :
      (next : Message)
      → get_last? (drop_last c.message_list) ≡ some next
      → length (packet_text s (toggle_last_pkt_sent c) next) < bufsize
  next-fits next second =
      let text =
        All-get_last? IsText (payloads (drop_last c.message_list)) next.payload
          (get_last?-map (λ m. m.payload) (drop_last c.message_list) next second)
          (subst (All IsText) (sym payloads-rest)
            (All-drop_last IsText (payloads c.message_list) l.texts)) in
      subst (λ t. length t < bufsize) (sym (next_text next))
        (length-message (number_after c.last_pkt_sent) s.client_nick c.nick next.payload next_number
          l.sender_nick (subst IsNick (sym l.same_nick) l.receiver_nick) text)

  exchanged-last :
      (m : Message) → get_last? c.message_list ≡ some m → drop_last c.message_list ≡ [] → Exchanged
  exchanged-last m there empty = (
    _,
    settled c.last_pkt_sent c,
    _,
    exchange-delivers (settled c.last_pkt_sent c) s
        (last-settled c.last_pkt_sent c m w s there (ap get_last? empty)),
    still-Linked w v hw hv old a b s r c d x l oldest (drop_last c.message_list) c.last_pkt_sent
        c.time_of_last_send s.network s.calls l.small payloads-rest
        (λ y e. let none_left = ap (λ q. get_last? (payloads q)) empty in cc) (λ _. refl),
    payloads-rest,
    refl,
  )

  exchanged-next :
      (m next : Message)
      → get_last? c.message_list ≡ some m
      → get_last? (drop_last c.message_list) ≡ some next
      → Exchanged
  unfolding toggle_last_pkt_sent
  exchanged-next m next there second =
      let queue = update_last add_message_send_attempt (drop_last c.message_list) in
      let rest : payloads queue ≡ drop_last (payloads c.message_list) =
        payloads-update_last (drop_last c.message_list) ∙ payloads-rest in
      let text : get_last? (payloads queue) ≡ some next.payload =
        ap get_last? (payloads-update_last (drop_last c.message_list))
        ∙ get_last?-map (λ m. m.payload) (drop_last c.message_list) next second in
      (
        _,
        next_sent c.last_pkt_sent c (hw.time s.calls),
        _,
        exchange-delivers _ _
            (next-sent c.last_pkt_sent c m next w s hw there second (next-fits next second)),
        still-Linked w v hw hv old a b s r c d x l oldest queue (number_after c.last_pkt_sent)
            (some (hw.time s.calls))
            (s.network
              ++ record { dest = c.addr; payload = packet_text s (toggle_last_pkt_sent c) next }
                ∷ [])
            (suc (suc s.calls)) next_number rest
            (λ y e. (
              get_last?-append s.network _
                  ∙ ap (λ t. some (record { dest = c.addr; payload = t }))
                      (next_text next
                        ∙ ap (message (number_after c.last_pkt_sent) s.client_nick c.nick) (cc)),
              new_number,
            ))
            (λ e. absurd (let nothing = ap get_last? e in cc)),
        rest,
        refl,
      )

  pub exchanged : (m : Message) → get_last? c.message_list ≡ some m → Exchanged
  exchanged m there = elim (get_last?-cases (drop_last c.message_list)) [
    | inl empty ↦ exchanged-last m there empty
    | inr (next, second) ↦ exchanged-next m next there second
  ]
