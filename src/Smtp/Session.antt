-- ===== src/Smtp/Session.antt =====
-- An SMTP session: (s *smtpSession) Reset, Mail, Rcpt and Data, recordRejection and rejectData of
-- internal/app/smtp.go, with boundedEventString of internal/app/http.go. go-smtp calls the session and
-- reads the message; strings.ToValidUTF8 is a parameter. An event of the analytics has the fields
-- that the session decides; its random name, its times and its duration are left out, and so are
-- the metrics.
pub mod Envelope
pub mod Delivery
use tmpmail_fyi.Common.{
  ltb, if◌then◌else◌, length, take, Bytes, codes, to_lower, cut_after, ℕ, Bool, List, [], ◌∷◌, ◌++◌,
}
use tmpmail_fyi.Config.{Config}
use tmpmail_fyi.Address.{normalize_recipient, contains_recipient, accepts}
use tmpmail_fyi.Store.State.{M, ◌>>=◌, ◌>>◌, pure, Try, try, good, bad}
use tmpmail_fyi.Store.Save.{Message, MailParser, Draws, save}

pub record Session : Type 0 where
  pub source_ip : Bytes
  pub sender : Bytes
  pub recipients : List Bytes

pub data Kind : Type 0 where
  smtp_rejected : Kind
  delivery : Kind

pub record AnalyticsEvent : Type 0 where
  pub kind : Kind
  pub ip : Bytes
  pub sender : Bytes
  pub sender_domain : Bytes
  pub recipient : Bytes
  pub route : Bytes
  pub status : ℕ
  pub size : ℕ
  pub message_id : Bytes

-- What a handler returns to go-smtp: nil, an error with its code, or its own error for a message
-- that is too large.
pub data Reply : Type 0 where
  accepted : Reply
  smtp_error : ℕ → Reply
  err_data_too_large : Reply

-- What io.ReadAll gives.
pub data Input : Type 0 where
  whole : Bytes → Input
  too_large : Input
  read_failed : Input

unfoldable pub new_session : Bytes → Session
new_session ip = record { source_ip = ip; sender = []; recipients = [] }

unfoldable pub reset : Session → Session
reset x = record x { sender = []; recipients = [] }

unfoldable pub mail_from : Bytes → Session → Session
mail_from from x = record x { sender = from; recipients = [] }

-- `watched` says that the server has analytics.
unfoldable pub record_rejection : Bool → Bytes → Bytes → Bytes → Bytes → ℕ → List AnalyticsEvent
unfolding cut_after
record_rejection watched ip sender recipient stage code =
    if watched
    then record {
      kind = smtp_rejected;
      ip = ip;
      sender = sender;
      sender_domain = to_lower (cut_after b'@' sender);
      recipient = recipient;
      route = stage;
      status = code;
      size = 0;
      message_id = [];
    }
      ∷ []
    else []

unfoldable pub add_recipient : Bytes → Session → Session
unfolding contains_recipient
add_recipient to x =
    if contains_recipient x.recipients to
    then x
    else record x { recipients = x.recipients ++ to ∷ [] }

unfoldable pub rcpt : Bytes → Bool → Bytes → Session → Session × Reply × List AnalyticsEvent
unfolding accepts record_rejection normalize_recipient add_recipient
rcpt mail_domain watched to x =
    if accepts mail_domain to
    then (add_recipient (normalize_recipient to) x, accepted, [])
    else (x, smtp_error 550, record_rejection watched x.source_ip x.sender to (codes "RCPT TO") 550)

unfoldable pub reject_recipients : Bool → Session → ℕ → List Bytes → List AnalyticsEvent
unfolding record_rejection
reject_recipients watched x code [] = []
reject_recipients watched x code (r ∷ recipients) =
    record_rejection watched x.source_ip x.sender r (codes "DATA") code
    ++ reject_recipients watched x code recipients

unfoldable pub reject_data : Bool → ℕ → Session → List AnalyticsEvent
unfolding reject_recipients
reject_data watched code x = reject_recipients watched x code x.recipients

module _ (to_valid_utf8 : Bytes → Bytes) where
  unfoldable pub bounded_event_string : Bytes → ℕ → Bytes
  bounded_event_string value limit =
      to_valid_utf8 (if ltb limit (length value) then take limit value else value)

  abbrev pub delivery_event : Session → Message → AnalyticsEvent
  delivery_event x m =
      let sender = bounded_event_string x.sender 320 in
      record {
        kind = delivery;
        ip = bounded_event_string x.source_ip 64;
        sender = sender;
        sender_domain = bounded_event_string (to_lower (cut_after b'@' sender)) 253;
        recipient = bounded_event_string m.recipient 320;
        route = [];
        status = 0;
        size = m.size;
        message_id = m.id;
      }

  unfoldable pub delivery_events : Bool → Session → List Message → List AnalyticsEvent
  delivery_events watched x [] = []
  delivery_events watched x (m ∷ messages) =
      let rest = delivery_events watched x messages in
      if watched then delivery_event x m ∷ rest else rest

  unfoldable pub data_reply : Bool → Session → Try (List Message) → Reply × List AnalyticsEvent
  unfolding delivery_events reject_data
  data_reply watched x (good messages) = (accepted, delivery_events watched x messages)
  data_reply watched x (bad e) = (smtp_error 451, reject_data watched 451 x)

  -- Data, with what Save takes from its surroundings.
  unfoldable pub receive_data :
      MailParser → Config → Bytes → Draws → Bool → Input → Session → M (Reply × List AnalyticsEvent)
  unfolding reject_data try save data_reply
  receive_data mail cfg msg_dir d watched too_large x =
      pure (err_data_too_large, reject_data watched 552 x)
  receive_data mail cfg msg_dir d watched read_failed x =
      pure (smtp_error 554, reject_data watched 554 x)
  receive_data mail cfg msg_dir d watched (whole raw) x = do
    saved ← try (save mail cfg msg_dir d x.recipients x.sender raw)
    pure (data_reply watched x saved)

-- The commands that go-smtp passes on before the data.
pub data Command : Type 0 where
  mail_cmd : Bytes → Command
  rcpt_cmd : Bytes → Command
  rset_cmd : Command

unfoldable pub obey : Bytes → Bool → Command → Session → Session
unfolding mail_from rcpt reset
obey mail_domain watched (mail_cmd from) x = mail_from from x
obey mail_domain watched (rcpt_cmd to) x = (rcpt mail_domain watched to x).0
obey mail_domain watched rset_cmd x = reset x

unfoldable pub obey_all : Bytes → Bool → List Command → Session → Session
unfolding obey
obey_all mail_domain watched [] x = x
obey_all mail_domain watched (c ∷ commands) x =
    obey_all mail_domain watched commands (obey mail_domain watched c x)
