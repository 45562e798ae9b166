-- ===== src/Smtp/Session/Envelope.antt =====
-- The envelope that a session collects.
use tmpmail_fyi.Common.{
  Bool-cases, All, All-append, Bytes, ◌≡◌, ◌∙◌, inl, inr, Bool, true, List, [], ◌∷◌,
}
use tmpmail_fyi.Address.{normalize_recipient, contains_recipient, accepts}
use tmpmail_fyi.Address.Laws.{normalize_recipient_idem, accepts-canonical}
use tmpmail_fyi.Store.Save.{dedupe}
use tmpmail_fyi.Store.Save.Dedupe.{NoRepeats, NoRepeats-append, dedupe-same}
use tmpmail_fyi.Smtp.Session.{
  Session, new_session, reset, mail_from, add_recipient, rcpt, Command, obey, obey_all, mail_cmd,
  rcpt_cmd, rset_cmd,
}

-- The recipients are canonical, at the mail domain, and each stands once.
pub record IsEnvelope (mail_domain : Bytes) (x : Session) : Type 0 where
  pub canonical : All (λ r. normalize_recipient r ≡ r) x.recipients
  pub local : All (λ r. accepts mail_domain r ≡ true) x.recipients
  pub distinct : NoRepeats x.recipients

module _ (mail_domain : Bytes) where
  empty-IsEnvelope :
      (ip sender : Bytes)
      → IsEnvelope mail_domain (record { source_ip = ip; sender = sender; recipients = [] })
  empty-IsEnvelope ip sender = record { canonical = tt; local = tt; distinct = tt }

  add_recipient-IsEnvelope :
      (to : Bytes) (x : Session)
      → accepts mail_domain to ≡ true
      → IsEnvelope mail_domain x
      → IsEnvelope mail_domain (add_recipient (normalize_recipient to) x)
  unfolding add_recipient
  add_recipient-IsEnvelope to x ok v =
      let n = normalize_recipient to in
      elim (Bool-cases (contains_recipient x.recipients n)) [
        | inl e ↦ rw e v
        | inr e ↦ rw e (record {
          canonical =
              All-append (λ r. normalize_recipient r ≡ r) x.recipients (n ∷ []) v.canonical
                (normalize_recipient_idem to, tt);
          local =
              All-append (λ r. accepts mail_domain r ≡ true) x.recipients (n ∷ []) v.local
                (accepts-canonical mail_domain to ∙ ok, tt);
          distinct = NoRepeats-append x.recipients n v.distinct e;
        })
      ]

  rcpt-IsEnvelope :
      (watched : Bool) (to : Bytes) (x : Session)
      → IsEnvelope mail_domain x
      → IsEnvelope mail_domain (rcpt mail_domain watched to x).0
  unfolding rcpt
  rcpt-IsEnvelope watched to x v = elim (Bool-cases (accepts mail_domain to)) [
    | inl e ↦ rw (e, rcpt) (add_recipient-IsEnvelope to x e v)
    | inr e ↦ rw (e, rcpt) v
  ]

  obey-IsEnvelope :
      (watched : Bool) (c : Command) (x : Session)
      → IsEnvelope mail_domain x
      → IsEnvelope mail_domain (obey mail_domain watched c x)
  unfolding obey mail_from reset
  obey-IsEnvelope watched (mail_cmd from) x v = empty-IsEnvelope x.source_ip from
  obey-IsEnvelope watched rset_cmd x v = empty-IsEnvelope x.source_ip []
  obey-IsEnvelope watched (rcpt_cmd to) x v = rcpt-IsEnvelope watched to x v

  obey_all-IsEnvelope :
      (watched : Bool) (commands : List Command) (x : Session)
      → IsEnvelope mail_domain x
      → IsEnvelope mail_domain (obey_all mail_domain watched commands x)
  unfolding obey_all
  obey_all-IsEnvelope watched [] x v = v
  obey_all-IsEnvelope watched (c ∷ commands) x v =
      obey_all-IsEnvelope watched commands (obey mail_domain watched c x)
        (obey-IsEnvelope watched c x v)

  -- After any commands of a new session its recipients are canonical, at the mail domain and without
  -- repeats, and Save takes them as they are.
  pub obey_all-new_session :
      (watched : Bool) (ip : Bytes) (commands : List Command)
      → let x = obey_all mail_domain watched commands (new_session ip) in
        IsEnvelope mail_domain x × (dedupe x.recipients ≡ x.recipients)
  unfolding new_session
  obey_all-new_session watched ip commands =
      let x = obey_all mail_domain watched commands (new_session ip) in
      let v = obey_all-IsEnvelope watched commands (new_session ip) (empty-IsEnvelope ip []) in
      (v, dedupe-same x.recipients v.distinct v.canonical)
