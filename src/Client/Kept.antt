-- ===== src/Client/Kept.antt =====
-- What each round of two clients keeps: that all texts are shown or still wait.
use upush_chat.Base.{
  ℕ, suc, ◌≤◌, arith, inl, inr, ◌≡◌, sym, ap, ◌∙◌, subst, Bool, true, false, if◌then◌else◌, some,
  List, [], ◌∷◌, ◌++◌, Bytes,
}
use upush_chat.Network.{SockaddrIn, is_same_address}
use upush_chat.Outcome.{ok}
use upush_chat.Sequence.{get_last?, drop_last, update_first}
use upush_chat.BlockedNicks.{is_nick_blocked}
use upush_chat.Sequence.Ends.{get_last?-map, get_last?-cases}
use upush_chat.Contacts.{
  Message, Contact, compare_address, find_contact_by_nick, find_contact_by_addr,
}
use upush_chat.Client.{World, Client}
use upush_chat.Client.Acknowledging.{payloads}
use upush_chat.Client.Leaves.{returned}
use upush_chat.Client.ToClient.{resend_message_to_contact}
use upush_chat.Client.Loop.{write_to}
use upush_chat.Client.Packets.{IsText, length-message}
use upush_chat.Client.Delivery.{Steady, received_by}
use upush_chat.Client.Shown.{unseen, signed, shown-received, shown-typed, shown-first}
use upush_chat.Client.Link.{Underway, number_after, heard, deliver, exchange, message-delivered}
use upush_chat.Client.Exchange.{exchanged}
use upush_chat.Client.Resent.{resend-Resent}
use upush_chat.Client.Posted.{write_to-queued, write_to-sent, queued, sent_first}
use upush_chat.Client.Rounds.{
  Pending, received-Underway, send_again-Underway, queued-Underway, first-Underway,
}

module _ (a b : SockaddrIn) (r : Client) (c d : Contact) where
  -- The clients still know each other, and what is shown and what waits make up all the texts.
  pub record Kept (typed : List Bytes) (t u : Client) : Type 0 where
    pub old : Bool
    pub c_now : Contact
    pub d_now : Contact
    pub underway : Underway old a b t u c_now d_now
    pub nick : d_now.nick ≡ d.nick
    pub complete :
        u.shown ++ signed d.nick (unseen old (payloads c_now.message_list))
        ≡ r.shown ++ signed d.nick (typed ++ payloads c.message_list)

module _ (w v : World) (hw : Steady w) (hv : Steady v) (a b : SockaddrIn) (r : Client)
    (c d : Contact) (typed : List Bytes) (t u : Client) (k : Kept a b r c d typed t u)
    (c1 : Contact) (m : Message) (p : Pending b t c1 m) where
  waiting : k.c_now ≡ c1
  waiting = let here = k.underway.receiver_known in let there = p.known in cc

  oldest : get_last? (payloads k.c_now.message_list) ≡ some m.payload
  oldest = rw waiting (get_last?-map (λ m. m.payload) c1.message_list m p.oldest)

  after_receipt :
      (if k.old then u.shown else u.shown ++ (k.d_now.nick, m.payload) ∷ [])
        ++ signed d.nick (drop_last (payloads k.c_now.message_list))
      ≡ r.shown ++ signed d.nick (typed ++ payloads c.message_list)
  after_receipt =
      rw k.nick
        (shown-received k.old u.shown d.nick m.payload (payloads k.c_now.message_list) oldest)
      ∙ k.complete

  pub ack_lost-Kept : (u' : Client) → deliver v a b t u ≡ ok u' → Kept a b r c d typed t u'
  ack_lost-Kept u' e =
      let here =
        message-delivered w v hw hv k.old a b t u k.c_now k.d_now m.payload k.underway oldest in
      let same : received_by k.old t.client_nick k.c_now.last_pkt_sent k.d_now m.payload u ≡ u' =
        cc in
      subst (Kept a b r c d typed t) same (record {
        old = true;
        c_now = k.c_now;
        d_now = heard k.c_now.last_pkt_sent k.d_now;
        underway = received-Underway a b k.old t u k.c_now k.d_now k.underway m.payload oldest;
        nick = k.nick;
        complete = after_receipt;
      })

  pub both_arrive-Kept :
      (t' u' : Client) → exchange w v a b t u ≡ ok (t', u') → Kept a b r c d typed t' u'
  both_arrive-Kept t' u' e =
      let there : get_last? k.c_now.message_list ≡ some m = rw waiting p.oldest in
      let (t_end, c_end, d_end, run, linked, rest, nick) =
        exchanged w v hw hv k.old a b t u k.c_now k.d_now m.payload k.underway oldest m there in
      let same_t : t_end ≡ t' = cc in
      let same_u : received_by k.old t.client_nick k.c_now.last_pkt_sent k.d_now m.payload u ≡ u' =
        cc in
      subst (Kept a b r c d typed t') same_u (
        subst
          (λ x.
            Kept a b r c d typed x
              (received_by k.old t.client_nick k.c_now.last_pkt_sent k.d_now m.payload u))
          same_t
          (record {
            old = false;
            c_now = c_end;
            d_now = d_end;
            underway = linked;
            nick = nick ∙ k.nick;
            complete = rw rest after_receipt;
          }))

  pub sent_again-Kept :
      (t' : Client) (c' : Contact)
      → resend_message_to_contact c1 w t ≡ ok (some c', t')
      → payloads c'.message_list ≡ payloads c1.message_list
      → is_same_address (some c'.addr) (some b) ≡ true
      → Kept a b r c d typed
          (record t' { contact_list = update_first (compare_address b) (λ _. c') t'.contact_list })
          u
  sent_again-Kept t' c' e whole same =
      let there : get_last? k.c_now.message_list ≡ some m = rw waiting p.oldest in
      let sent = resend-Resent c1 c' m w t t' hw p.oldest e whole in
      record {
        old = k.old;
        c_now = c';
        d_now = k.d_now;
        underway =
            send_again-Underway a b k.old t u k.c_now k.d_now k.underway c' m t' there
              (rw waiting sent) (rw waiting whole) same;
        nick = k.nick;
        complete = rw (whole, ← waiting) k.complete;
      }

module _ (w : World) (hw : Steady w) (a b : SockaddrIn) (r : Client) (c d : Contact)
    (typed : List Bytes) (t u : Client) (k : Kept a b r c d typed t u) (c1 : Contact) (t' : Client)
    (text : Bytes) (here : find_contact_by_addr b t.contact_list ≡ some c1)
    (known : find_contact_by_nick c1.nick t.contact_list ≡ some c1) (valid : IsText text)
    (memory : (i : ℕ) → (w.env i).node_block ≡ true)
    (free : is_nick_blocked c1.nick t.blocked_list ≡ false)
    (e : write_to c1.nick text w t ≡ ok (tt, t')) where
  this : k.c_now ≡ c1
  this = let there = k.underway.receiver_known in cc

  queued-Kept :
      (m : Message) → get_last? c1.message_list ≡ some m → Kept a b r c d (text ∷ typed) t' u
  queued-Kept m oldest =
      let there : get_last? k.c_now.message_list ≡ some m = rw this oldest in
      let (_, after) =
        returned (sym (write_to-queued text c1 m w t memory oldest free known) ∙ e) in
      record {
        old = k.old;
        c_now = queued text k.c_now;
        d_now = k.d_now;
        underway =
            queued-Underway a b k.old t u k.c_now k.d_now k.underway text m
              (suc (suc (suc t.calls))) t' there valid (rw this known) (rw this after);
        nick = k.nick;
        complete =
            shown-typed k.old r.shown u.shown d.nick text m.payload (payloads k.c_now.message_list)
              (typed ++ payloads c.message_list)
              (get_last?-map (λ m. m.payload) k.c_now.message_list m there) k.complete;
      }

  first-Kept : c1.message_list ≡ [] → Kept a b r c d (text ∷ typed) t' u
  first-Kept empty =
      let l = k.underway in
      let nothing : k.c_now.message_list ≡ [] = rw this empty in
      let small = l.small in
      let next : number_after k.c_now.last_pkt_sent ≤ 1 = ground arith in
      let fits =
        length-message (number_after k.c_now.last_pkt_sent) t.client_nick k.c_now.nick text next
          l.sender_nick (rw l.same_nick l.receiver_nick) valid in
      let (_, after) =
        returned
          (sym (write_to-sent text c1 w t hw memory empty (rw (← this) fits) free known) ∙ e) in
      record {
        old = false;
        c_now = sent_first text k.c_now (hw.time (suc (suc (suc t.calls))));
        d_now = k.d_now;
        underway =
            first-Underway a b k.old t u k.c_now k.d_now l text (hw.time (suc (suc (suc t.calls))))
              t' nothing valid (rw this known) (rw this after);
        nick = k.nick;
        complete =
            shown-first k.old r.shown u.shown d.nick text (payloads k.c_now.message_list)
              (typed ++ payloads c.message_list) (ap payloads nothing) k.complete;
      }

  pub text_typed-Kept : Kept a b r c d (text ∷ typed) t' u
  text_typed-Kept = elim (get_last?-cases c1.message_list) [
    | inl empty ↦ first-Kept empty
    | inr (m, oldest) ↦ queued-Kept m oldest
  ]
