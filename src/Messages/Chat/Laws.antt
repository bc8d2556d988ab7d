-- ===== src/Messages/Chat/Laws.antt =====
-- What the handlers of text messages promise to the clients.
use distributed_chat_system.Prelude.{
  ℕ, ◌≡◌, ◌≢◌, ◌⊎◌, inl, inr, refl, ap, sym, subst, ◌∙◌, ℤ, true, false, ◌||◌, Option, none, some,
  List, [], ◌∷◌, String, map, ◌==◌, ltb, length, All, arith, Bool-cases, Option-cases,
}
use distributed_chat_system.Messages.Types.{TextMessage, Collation}
use distributed_chat_system.Messages.Service.{
  AcceptResult, accepted, invalid_message, invalid_recipient, unavailable, returned, accept,
}
use distributed_chat_system.Messages.Service.Laws.{
  IsValidBatch, accept_iff, accept_state, accept_changes,
}
use distributed_chat_system.Messages.Table.{Faults, Row, pending_rows}
use distributed_chat_system.Messages.Table.Persist.{
  IsStored, Extends, persist-IsStored, insert_all, persist_atomic,
}
use distributed_chat_system.Messages.Table.Acknowledge.{acknowledge_other}
use distributed_chat_system.Friends.{Tables, relation_count, check_friend_relation}
use distributed_chat_system.Messages.Chat.{
  ChatRequest, Reply, delivery_accepted, json_error, closed, replied, messages_of, friendship,
  persistence, reply_of, text_chat_msg, AckRequest, ids_of, text_chat_ack,
}

-- A message as it stands in a request's array.
abbrev pub text_of : TextMessage → Option (String × String)
text_of m = some (m.client_message_id, m.content)

reply_of-accepted : (r : AcceptResult) → reply_of r ≡ delivery_accepted → r ≡ accepted
reply_of-accepted accepted e = refl
reply_of-accepted invalid_message e = ground arith
reply_of-accepted invalid_recipient e = ground arith
reply_of-accepted unavailable e = ground arith

related :
    (f : Faults) (tables : Tables) (a b : ℤ)
    → check_friend_relation f tables a b ≡ some true
    → relation_count a b tables.friends ≡ 2
unfolding check_friend_relation
related f tables a b e = ground arith

returned_inj : {A : Type 0} {x y : A} → returned x ≡ returned y → x ≡ y
returned_inj e = cc

replied_inj : {x y : Reply} → replied x ≡ replied y → x ≡ y
replied_inj e = cc

-- A request that was read holds the messages' texts, each of them and in order.
messages_of_lem :
    (uid touid : ℤ) (texts : List (Option (String × String))) (ms : List TextMessage)
    → messages_of uid touid texts ≡ some ms
    → texts ≡ map text_of ms
unfolding messages_of
messages_of_lem uid touid [] ms e = ground (arith, e)
messages_of_lem uid touid (none ∷ texts) ms e = cc
messages_of_lem uid touid (some (msgid, content) ∷ texts) ms e =
    elim (Option-cases (messages_of uid touid texts)) [
      | inl r ↦ absurd (ground (arith, e, r))
      | inr (rest, r) ↦
          let m : TextMessage = record {
            client_message_id = msgid;
            sender_uid = uid;
            receiver_uid = touid;
            content = content;
          } in
          let whole : (m ∷ rest) ≡ ms = ground (arith, e, r) in
          ap (◌∷◌ (some (msgid, content))) (messages_of_lem uid touid texts rest r)
          ∙ ap (map text_of) whole
    ]

module _ (like : Collation) where
  -- What a client may rely on when its texts are reported as accepted.
  pub record IsAccepted (tables : Tables) (uid : ℤ) (q : ChatRequest) (old new : List Row)
      : Type 0 where
    pub messages : List TextMessage
    pub read : q.text_array ≡ map text_of messages
    pub valid : IsValidBatch uid q.touid messages
    pub friends : relation_count uid q.touid tables.friends ≡ 2
    pub stored : All (IsStored like new) messages
    pub extends : Extends like old new

  accepted_batch :
      (f g : Faults) (tables : Tables) (uid : ℤ) (q : ChatRequest) (rows : List Row)
      (ms : List TextMessage)
      → messages_of uid q.touid q.text_array ≡ some ms
      → (accept (friendship f tables) (persistence like g) uid q.touid ms rows).0 ≡ accepted
      → IsAccepted tables uid q rows
          (accept (friendship f tables) (persistence like g) uid q.touid ms rows).1
  accepted_batch f g tables uid q rows ms read e =
      let (valid, friend, kept) =
        (accept_iff (friendship f tables) (persistence like g) uid q.touid ms rows).0 e in
      let holds = persist-IsStored like g rows ms (returned_inj kept) in
      subst (IsAccepted tables uid q rows)
        (sym (accept_state (friendship f tables) (persistence like g) uid q.touid ms rows e))
        (record {
          messages = ms;
          read = messages_of_lem uid q.touid q.text_array ms read;
          valid = valid;
          friends = related f tables uid q.touid (returned_inj friend);
          stored = holds.0;
          extends = holds.1;
        })

  module _ (f g : Faults) (tables : Tables) (uid : ℤ) (q : ChatRequest) (rows : List Row) where
    count_refused :
        ((length q.text_array == 0) || ltb 50 (length q.text_array)) ≡ true
        → text_chat_msg like f g tables uid (some q) rows ≡ (closed, rows)
    unfolding text_chat_msg
    count_refused h = rw (h, text_chat_msg) refl

    text_refused :
        ((length q.text_array == 0) || ltb 50 (length q.text_array)) ≡ false
        → messages_of uid q.touid q.text_array ≡ none
        → text_chat_msg like f g tables uid (some q) rows ≡ (replied json_error, rows)
    unfolding text_chat_msg
    text_refused h r = rw (h, r, text_chat_msg) refl

    batch_served :
        (ms : List TextMessage)
        → ((length q.text_array == 0) || ltb 50 (length q.text_array)) ≡ false
        → messages_of uid q.touid q.text_array ≡ some ms
        → text_chat_msg like f g tables uid (some q) rows ≡ (
          replied
              (reply_of (accept (friendship f tables) (persistence like g) uid q.touid ms rows).0),
          (accept (friendship f tables) (persistence like g) uid q.touid ms rows).1,
        )
    unfolding text_chat_msg
    batch_served ms h r = rw (h, r, text_chat_msg) refl

    -- The three ways through the handler.
    text_chat_msg-cases :
        (text_chat_msg like f g tables uid (some q) rows ≡ (closed, rows))
        ⊎ ((text_chat_msg like f g tables uid (some q) rows ≡ (replied json_error, rows))
            ⊎ ((ms : List TextMessage) × (messages_of uid q.touid q.text_array ≡ some ms)
                × (text_chat_msg like f g tables uid (some q) rows ≡ (
                  replied (
                      reply_of
                        (accept (friendship f tables) (persistence like g) uid q.touid ms rows).0),
                  (accept (friendship f tables) (persistence like g) uid q.touid ms rows).1,
                ))))
    text_chat_msg-cases =
        elim (Bool-cases ((length q.text_array == 0) || ltb 50 (length q.text_array))) [
          | inl h ↦ inl (count_refused h)
          | inr h ↦ elim (Option-cases (messages_of uid q.touid q.text_array)) [
            | inl r ↦ inr (inl (text_refused h r))
            | inr (ms, r) ↦ inr (inr (ms, r, batch_served ms h r))
          ]
        ]

    -- When TextChatMsgCallback answers that the delivery is accepted, the array of texts is, in
    -- order, the texts of messages from the session's user to the receiver that form a valid batch,
    -- the two are friends in both directions, every message is stored under its key, in the
    -- collation of the ids, and no row that was there has changed.
    pub text_chat_msg-IsAccepted :
        (text_chat_msg like f g tables uid (some q) rows).0 ≡ replied delivery_accepted
        → IsAccepted tables uid q rows (text_chat_msg like f g tables uid (some q) rows).1
    text_chat_msg-IsAccepted e = elim text_chat_msg-cases [
      | inl c ↦ absurd (ground (arith, c, e))
      | inr (inl c) ↦ absurd (ground (arith, c, e))
      | inr (inr (ms, r, c)) ↦
          subst (λ answer. IsAccepted tables uid q rows answer.1) (sym c)
            (accepted_batch f g tables uid q rows ms r (
              reply_of-accepted
                (accept (friendship f tables) (persistence like g) uid q.touid ms rows).0
                (replied_inj (sym (ap (λ answer. answer.0) c) ∙ e))))
    ]

    -- Whatever TextChatMsgCallback answers and whatever the database does: the table of messages is as
    -- before, or the texts were read as a valid batch from the session's user to a friend in both
    -- directions, every message of it is stored under its key, in the collation of the ids, all rows
    -- of before are found unchanged, and nothing but the batch was inserted. A text that is no object with two strings is never skipped.
    pub text_chat_msg_authorized :
        ((text_chat_msg like f g tables uid (some q) rows).1 ≡ rows)
        ⊎ ((ms : List TextMessage) × (q.text_array ≡ map text_of ms)
            × IsValidBatch uid q.touid ms
            × (relation_count uid q.touid tables.friends ≡ 2)
            × All (IsStored like (text_chat_msg like f g tables uid (some q) rows).1) ms
            × Extends like rows (text_chat_msg like f g tables uid (some q) rows).1
            × ((text_chat_msg like f g tables uid (some q) rows).1 ≡ insert_all like rows ms))
    text_chat_msg_authorized = elim text_chat_msg-cases [
      | inl c ↦ inl (ap (λ answer. answer.1) c)
      | inr (inl c) ↦ inl (ap (λ answer. answer.1) c)
      | inr (inr (ms, r, c)) ↦
          elim (accept_changes (friendship f tables) (persistence like g) uid q.touid ms rows) [
            | inl k ↦ inl (ap (λ answer. answer.1) c ∙ k)
            | inr (inl k) ↦ inl (ap (λ answer. answer.1) c ∙ k)
            | inr (inr (valid, friend, k)) ↦ elim (persist_atomic like g rows ms) [
              | inl p ↦ inl (ap (λ answer. answer.1) c ∙ k ∙ p)
              | inr (stored, extends, p, n) ↦
                  let table = ap (λ answer. answer.1) c ∙ k in
                  inr (
                    ms,
                    messages_of_lem uid q.touid q.text_array ms r,
                    valid,
                    related f tables uid q.touid (returned_inj friend),
                    subst (λ (t : List Row). All (IsStored like t) ms) (sym table) stored,
                    subst (λ (t : List Row). Extends like rows t) (sym table) extends,
                    table ∙ p,
                  )
            ]
          ]
    ]

  -- An acknowledgement that a session's user sends leaves the pending messages of everybody else as
  -- they are, whatever its text and whatever the database does.
  pub text_chat_ack_other :
      (f : Faults) (now : ℕ) (uid other : ℤ) (request : Option AckRequest) (rows : List Row)
      → uid ≢ other
      → pending_rows other (text_chat_ack like f now uid request rows).1 ≡ pending_rows other rows
  unfolding text_chat_ack
  text_chat_ack_other f now uid other none rows ne = refl
  text_chat_ack_other f now uid other (some q) rows ne =
      elim (Bool-cases ((length q.msgids == 0) || ltb 50 (length q.msgids))) [
        | inl h ↦ rw (h, text_chat_ack) refl
        | inr h ↦ elim (Option-cases (ids_of q.msgids)) [
          | inl r ↦ rw (h, r, text_chat_ack) refl
          | inr (ids, r) ↦
              rw (h, r, text_chat_ack)
                (acknowledge_other like f now rows uid q.fromuid other ids ne)
        ]
      ]
