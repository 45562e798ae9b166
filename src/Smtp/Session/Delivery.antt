-- ===== src/Smtp/Session/Delivery.antt =====
-- What the data of a session does to the store, and what it reports.
use tmpmail_fyi.Common.{Bytes, codes, ℕ, ◌≡◌, Bool, true, false, List, [], ◌∷◌}
use tmpmail_fyi.Config.{Config}
use tmpmail_fyi.Store.State.{Store, Schedule}
use tmpmail_fyi.Store.Post.{Post}
use tmpmail_fyi.Store.Pending.Keeps.{Sound}
use tmpmail_fyi.Store.Save.{Message, MailParser, Draws}
use tmpmail_fyi.Store.Save.Correct.{Saved}
use tmpmail_fyi.Smtp.Session.{
  Session, AnalyticsEvent, Reply, Input, delivery_events, smtp_rejected, accepted, smtp_error,
  err_data_too_large, whole, too_large,
}
use tmpmail_fyi.Smtp.Session.Envelope.{}

-- The event is a rejection of a recipient with a code.
abbrev IsRejection : ℕ → AnalyticsEvent → Bytes → Type 0
IsRejection code e r =
    (e.kind ≡ smtp_rejected) × (e.recipient ≡ r) × (e.status ≡ code) × (e.route ≡ codes "DATA")

-- One rejection for each recipient, in order, if the server has analytics.
abbrev pub AllRejected : Bool → ℕ → List AnalyticsEvent → List Bytes → Type 0
AllRejected false code events recipients = events ≡ []
AllRejected true code [] [] = Unit
AllRejected true code [] (r ∷ rs) = ⊥
AllRejected true code (e ∷ events) [] = ⊥
AllRejected true code (e ∷ events) (r ∷ rs) = IsRejection code e r × AllRejected true code events rs

module _ (to_valid_utf8 : Bytes → Bytes) (mail : MailParser) (cfg : Config) (msg_dir : Bytes)
    (d : Draws) (watched : Bool) where
  -- The reply fits what happened to the mail: an acceptance follows a run of Save as in Saved, and an
  -- error leaves the mail as it was.
  abbrev pub Received :
      Store → Schedule → Session → Input → Reply × List AnalyticsEvent → Store → Type 0
  Received s w x input (accepted, events) t =
      (raw : Bytes) × (messages : List Message) × (input ≡ whole raw)
      × Saved mail cfg msg_dir d s w x.recipients x.sender raw messages t
      × (events ≡ delivery_events to_valid_utf8 watched x messages)
  Received s w x input (smtp_error code, events) t =
      Sound s t × AllRejected watched code events x.recipients
  Received s w x input (err_data_too_large, events) t =
      (input ≡ too_large) × Sound s t × AllRejected watched 552 events x.recipients
