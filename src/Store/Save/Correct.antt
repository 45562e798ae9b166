-- ===== src/Store/Save/Correct.antt =====
-- Save as a whole.
use tmpmail_fyi.Common.{Bytes, ◌≡◌, ◌⊎◌, true, some, List}
use tmpmail_fyi.Config.{Config}
use tmpmail_fyi.Store.State.{Store, Schedule}
use tmpmail_fyi.Store.Tables.{find_file}
use tmpmail_fyi.Store.Post.{Post}
use tmpmail_fyi.Store.Save.{Message, MailParser, Draws, dedupe, final_path}
use tmpmail_fyi.Store.Save.Settled.{Delivers}
use tmpmail_fyi.Store.Save.Run.{IsFiled}
use tmpmail_fyi.Store.Save.Readable.{is_taken}

module _ (mail : MailParser) (cfg : Config) (msg_dir : Bytes) (d : Draws) where
  -- The run of Save, and the mail file at its end.
  abbrev pub IsKept : Store → Schedule → List Bytes → Bytes → Bytes → List Message → Store → Type 0
  IsKept s w recipients sender raw messages t =
      IsFiled mail cfg msg_dir d s w recipients sender raw messages t
      × ((is_taken mail cfg msg_dir d s ≡ true)
          ⊎ (find_file (final_path mail cfg msg_dir d) t.files ≡ some raw))

  -- The promise of Save for a call that starts at `s` with a schedule.
  abbrev pub Saved : Store → Schedule → List Bytes → Bytes → Bytes → List Message → Store → Type 0
  Saved s w recipients sender raw messages t =
      Delivers mail cfg msg_dir d s (dedupe recipients) sender raw messages t
      × IsKept s w recipients sender raw messages t
