-- ===== src/Store/Tests.antt =====
-- Runs of the store, and its theorems at concrete inputs.
use tmpmail_fyi.Common.{
  Bytes, codes, eq_bytes, last_index, lt_bytes, ◌+ℤ◌, pos, ◌≡◌, refl, true, false, List, [], ◌∷◌,
  map, arith,
}
use tmpmail_fyi.Samples.{old_store, old_row, small, plain_mail, draws, old_store-IsValid}
use tmpmail_fyi.Config.{}
use tmpmail_fyi.Store.State.{Store, no_stats, IsReal, Outcome, done, failed}
use tmpmail_fyi.Store.Tables.{find_blob, find_row}
use tmpmail_fyi.Store.Tables.Rows.{refs}
use tmpmail_fyi.Store.Tables.Blobs.{recorded_refs}
use tmpmail_fyi.Store.Post.{Post}
use tmpmail_fyi.Store.Valid.{charged, IsValid, OnlyDbError}
use tmpmail_fyi.Store.Evict.{evict_tx}
use tmpmail_fyi.Store.Evict.Bounds.{Fitted, evict_tx-Fitted}
use tmpmail_fyi.Store.Save.{Message, dedupe, save}
use tmpmail_fyi.Store.Tables.{is_pending}
use tmpmail_fyi.Store.Save.Readable.{is_taken}
use tmpmail_fyi.Store.Save.Dedupe.{NoRepeats, dedupe-Distinct}
use tmpmail_fyi.Address.{normalize_recipient, contains_recipient}
use tmpmail_fyi.Store.Pending.{discard_file}
use tmpmail_fyi.Store.Pending.Keeps.{Sound, discard_file-Sound}
use tmpmail_fyi.Store.Pending.Drain.{Never}
use tmpmail_fyi.Store.Recovery.{normalize_stored_recipients}
use tmpmail_fyi.Store.Recovery.Canonical.{Canonicalized, normalize_stored_recipients-Canonicalized}
use tmpmail_fyi.Store.Tables.{}
use tmpmail_fyi.Store.Tables.Rows.{}
use tmpmail_fyi.Store.Tables.Blobs.{}
use tmpmail_fyi.Store.Cleanup.{cleanup}
use tmpmail_fyi.Store.Cleanup.Complete.{CleanedUp, SweptError, cleanup-IsClean}

abbrev to_two : List Bytes
to_two = codes "a@MAIL.TEST" ∷ codes "B@mail.test" ∷ codes "a@mail.test" ∷ []

-- Two recipients share a blob, and the expired message makes room.
abbrev kept_ids : Outcome (List Message) → List Bytes
kept_ids (done _ t _) = map (λ r. r.id) t.db.messages
kept_ids (failed _ t _) = []

save_evicts :
    kept_ids
      (save plain_mail small (codes "/m") draws to_two (codes "s") (codes "four") old_store [])
    ≡ codes "m0" ∷ codes "m1" ∷ []
unfolding save eq_bytes last_index lt_bytes
save_evicts = refl

-- The path of the new file is in nobody's use, and the file is there after Save.
new_path : is_taken plain_mail small (codes "/m") draws old_store ≡ false
unfolding eq_bytes is_pending
new_path = refl

cleanup-IsClean_example :
    Post (CleanedUp 61 old_store) (SweptError 61 old_store) (cleanup 61 (λ n. 62) old_store [])
cleanup-IsClean_example = cleanup-IsClean 61 (λ n. 62) old_store [] old_store-IsValid

evict_tx-Fitted_example :
    Post
      (Fitted 6 60 (codes "b2") old_store no_stats (old_store.stored_bytes +ℤ pos 4))
      (OnlyDbError old_store)
      (evict_tx small 60 (codes "b2") 4 old_store [])
evict_tx-Fitted_example =
    evict_tx-Fitted small 60 (codes "b2") 4 old_store [] old_store-IsValid.tables

discard_file-Sound_example :
    Post
      (λ _. Sound old_store)
      Never
      (discard_file (codes "/m/b2.eml") 3 old_store (true ∷ false ∷ []))
discard_file-Sound_example =
    discard_file-Sound (codes "/m/b2.eml") 3 old_store (true ∷ false ∷ []) old_store-IsValid

dedupe-Distinct_example :
    NoRepeats (dedupe to_two)
    × ((k : Bytes)
        → contains_recipient (dedupe to_two) k
          ≡ contains_recipient (map normalize_recipient to_two) k)
dedupe-Distinct_example = dedupe-Distinct to_two

-- A store whose one message has a recipient from before canonical forms.
abbrev legacy_store : Store
legacy_store = record old_store {
  db = record old_store.db { messages = record old_row { recipient = codes "a@MAIL.test" } ∷ [] };
}

legacy_store-IsValid : IsValid legacy_store
unfolding find_row find_blob refs recorded_refs charged
legacy_store-IsValid = record {
  tables = record {
    rows_unique = (refl, tt);
    blobs_unique = (refl, tt);
    queue_ordered = tt;
    counted = λ k. ground arith;
    held = (omega arith, tt);
  };
  messages_booked = refl;
  bytes_booked = λ _. refl;
}

normalize_stored_recipients-Canonicalized_example :
    Post
      (Canonicalized legacy_store)
      (λ e t. IsReal e × (t ≡ legacy_store))
      (normalize_stored_recipients legacy_store [])
normalize_stored_recipients-Canonicalized_example =
    normalize_stored_recipients-Canonicalized legacy_store [] legacy_store-IsValid
