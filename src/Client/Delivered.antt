-- ===== src/Client/Delivered.antt =====
-- As many exchanges of two clients as the queue has messages.
use upush_chat.Base.{
  ℕ, zero, suc, Bool, false, ◌≡◌, refl, sym, ap, ◌∙◌, some, List, [], ◌∷◌, ◌++◌, append-nil, map,
  arith, length, inl, inr,
}
use upush_chat.Network.{SockaddrIn}
use upush_chat.Outcome.{ok}
use upush_chat.Sequence.{get_last?}
use upush_chat.Sequence.Ends.{reverse, get_last?-map, length-drop_last, get_last?-cases}
use upush_chat.Contacts.{Message, Contact, find_contact_by_addr}
use upush_chat.Client.{World, Client}
use upush_chat.Client.Acknowledging.{payloads}
use upush_chat.Client.Delivery.{Steady}
use upush_chat.Client.Shown.{unseen, signed, shown-next, unseen-nil}
use upush_chat.Client.Link.{Linked, Underway, exchange, exchanges}
use upush_chat.Client.Exchange.{exchanged}

pub length-payloads : (q : List Message) → length (payloads q) ≡ length q
length-payloads [] = refl
length-payloads (m ∷ q) = ap suc (length-payloads q)

payloads-nil : (q : List Message) → length (payloads q) ≡ 0 → q ≡ []
payloads-nil [] e = refl
payloads-nil (m ∷ q) e = absurd (omega (arith, e))

oldest_message :
    (q : List Message) (k : ℕ)
    → length (payloads q) ≡ suc k
    → (m : Message) × (get_last? q ≡ some m)
oldest_message q k e = elim (get_last?-cases q) [
  | inl empty ↦
      let none_left = ap (λ p. length (payloads p)) empty in absurd (omega (arith, e, none_left))
  | inr found ↦ found
]

module _ (w v : World) (hw : Steady w) (hv : Steady v) (a b : SockaddrIn) where
  abbrev pub Delivered : Bool → ℕ → (s r : Client) → (c d : Contact) → Type 0
  Delivered old k s r c d =
      (s_end r_end : Client) × (c_end : Contact) × (exchanges w v a b k s r ≡ ok (s_end, r_end))
      × (find_contact_by_addr b s_end.contact_list ≡ some c_end)
      × (c_end.message_list ≡ [])
      × (r_end.shown ≡ r.shown ++ signed d.nick (unseen old (payloads c.message_list)))

  exchanges-first :
      (k : ℕ) (s r s_mid r_mid : Client)
      → exchange w v a b s r ≡ ok (s_mid, r_mid)
      → exchanges w v a b (suc k) s r ≡ exchanges w v a b k s_mid r_mid
  unfolding exchanges
  exchanges-first k s r s_mid r_mid e = rw e refl

  pub deliver_queue :
      (old : Bool) (k : ℕ) (s r : Client) (c d : Contact)
      → Underway old a b s r c d
      → length (payloads c.message_list) ≡ k
      → Delivered old k s r c d
  unfolding exchanges
  deliver_queue old zero s r c d l e =
      let empty = payloads-nil c.message_list e in
      (
        s,
        r,
        c,
        refl,
        l.receiver_known,
        empty,
        sym (
            ap (λ q. r.shown ++ signed d.nick (unseen old (payloads q))) empty
            ∙ ap (λ q. r.shown ++ signed d.nick q) (unseen-nil old)
            ∙ append-nil r.shown),
      )
  deliver_queue old (suc k) s r c d l e =
      let (m, there) = oldest_message c.message_list k e in
      let oldest = get_last?-map (λ m. m.payload) c.message_list m there in
      let (s_mid, c_mid, d_mid, first, linked, rest, same) =
        exchanged w v hw hv old a b s r c d m.payload l oldest m there in
      let shorter : length (payloads c_mid.message_list) ≡ k =
        let len = length-drop_last (payloads c.message_list) m.payload oldest in
        ap length rest ∙ omega (arith, len, e) in
      let (s_end, r_end, c_end, run, found, empty, shown) =
        deliver_queue false k s_mid _ c_mid d_mid linked shorter in
      (
        s_end,
        r_end,
        c_end,
        exchanges-first k s r s_mid _ first ∙ run,
        found,
        empty,
        shown
            ∙ shown-next old r.shown d.nick d_mid.nick m.payload (payloads c.message_list) _ same
                rest oldest,
      )

  -- Two clients with valid nicks know each other by the addresses and nicks that they have, neither
  -- address is that of the other's server, the recipient does not block the sender, nothing sent is
  -- lost and the clock is read. When the texts of the sender's queue are ones that a client accepts
  -- and the oldest one is underway under a number that is new to the recipient, then after one
  -- exchange per message of the queue the recipient has shown every text of the queue once, oldest
  -- first, and the queue is empty.
  pub exchanges-deliver_all :
      (s r : Client) (c d : Contact)
      → Linked a b s r c d
      → (s_end r_end : Client) × (c_end : Contact) × (exchanges w v a b (length c.message_list) s r
          ≡ ok (s_end, r_end))
        × (find_contact_by_addr b s_end.contact_list ≡ some c_end)
        × (c_end.message_list ≡ [])
        × (r_end.shown ≡ r.shown ++ map (λ x. (d.nick, x)) (reverse (payloads c.message_list)))
  exchanges-deliver_all s r c d l =
      deliver_queue false (length c.message_list) s r c d l (length-payloads c.message_list)
