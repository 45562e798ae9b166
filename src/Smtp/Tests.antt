-- ===== src/Smtp/Tests.antt =====
-- Runs of the SMTP server, and its theorems at concrete inputs.
use tmpmail_fyi.Common.{
  Bytes, codes, eq_bytes, last_index, equal_fold, ◌≡◌, refl, true, List, [], ◌∷◌, ◌++◌,
}
use tmpmail_fyi.Samples.{small}
use tmpmail_fyi.Store.Post.{Post}
use tmpmail_fyi.Store.Save.{dedupe}
use tmpmail_fyi.Smtp.Admission.{
  find_conn, Event, run, new_admission, accepted, closed, rejection_ended,
}
use tmpmail_fyi.Smtp.Admission.Limits.{open_conns, Balanced, run-new_admission-Balanced}
use tmpmail_fyi.Smtp.Admission.Idle.{run-idle}
use tmpmail_fyi.Smtp.Session.{Session, new_session, Command, obey_all, mail_cmd, rcpt_cmd}
use tmpmail_fyi.Smtp.Session.Envelope.{IsEnvelope, obey_all-new_session}

abbrev one_ip : Bytes
one_ip = codes "192.0.2.1"

abbrev other_ip : Bytes
other_ip = codes "192.0.2.2"

-- Two sources, one at its limit, and a connection closed twice.
abbrev busy : List Event
busy =
    accepted 1 one_ip
    ∷ accepted 2 one_ip
    ∷ accepted 3 other_ip
    ∷ closed 1
    ∷ closed 1
    ∷ accepted 4 one_ip
    ∷ rejection_ended
    ∷ []

abbrev all_closed : List Event
all_closed = busy ++ closed 3 ∷ closed 4 ∷ []

busy_sessions : (run busy (new_admission small)).sessions ≡ 2
unfolding run find_conn new_admission eq_bytes
busy_sessions = refl

run-new_admission-Balanced_example : Balanced (run busy (new_admission small))
run-new_admission-Balanced_example = run-new_admission-Balanced small busy

all_closed_idle : open_conns (run all_closed (new_admission small)).conns ≡ 0
unfolding open_conns run find_conn new_admission eq_bytes
all_closed_idle = refl

run-idle_example :
    ((run all_closed (new_admission small)).sessions ≡ 0)
    × ((run all_closed (new_admission small)).sources ≡ [])
run-idle_example = run-idle small all_closed all_closed_idle

abbrev talk : List Command
talk =
    mail_cmd (codes "x@y.test")
    ∷ rcpt_cmd (codes "a@MAIL.test")
    ∷ rcpt_cmd (codes "b@else.test")
    ∷ rcpt_cmd (codes "a@mail.test")
    ∷ []

abbrev addressed : Session
addressed = obey_all (codes "mail.test") true talk (new_session one_ip)

addressed_recipients : addressed.recipients ≡ codes "a@mail.test" ∷ []
unfolding obey_all new_session last_index eq_bytes equal_fold
addressed_recipients = refl

obey_all-new_session_example :
    IsEnvelope (codes "mail.test") addressed × (dedupe addressed.recipients ≡ addressed.recipients)
obey_all-new_session_example = obey_all-new_session (codes "mail.test") true one_ip talk

abbrev same_text : Bytes → Bytes
same_text s = s
