-- ===== src/Analytics/Tests.antt =====
-- The analytics at concrete events.
use tmpmail_fyi.Common.{
  length, Bytes, codes, eq_bytes, pos, ℕ, suc, ◌+◌, ◌-◌, ◌≡◌, refl, true, false, some, List, [],
  ◌∷◌,
}
use tmpmail_fyi.Config.{Config}
use tmpmail_fyi.Samples.{small}
use tmpmail_fyi.Analytics.State.{AnalyticsEvent, Tables, Analytics, succeeds, fails}
use tmpmail_fyi.Analytics.Tables.{delivery_row, write_batch}
use tmpmail_fyi.Analytics.Tables.Batch.{Batched, write_batch-Batched}
use tmpmail_fyi.Analytics.Worker.{
  drain, Happening, run, fresh_analytics, with_defaults, open_analytics, recorded, received,
  flush_tick,
}
use tmpmail_fyi.Analytics.Worker.Quiet.{work}
use tmpmail_fyi.Analytics.Worker.Counted.{IsCounted}
use tmpmail_fyi.Analytics.Worker.Drained.{drain_lem}
use tmpmail_fyi.Analytics.Worker.Bounded.{run-IsCounted}

abbrev counting : Config
counting = record small { analytics_enabled = true }

abbrev delivery : Bytes → ℕ → AnalyticsEvent
delivery id t = record {
  id = id;
  kind = codes "delivery";
  timestamp = some t;
  recipient = codes "a@mail.test";
  sender = codes "b@x.test";
  sender_domain = codes "x.test";
  ip = codes "192.0.2.1";
  size = 10;
  user_agent = [];
  route = [];
  method = [];
  status = 0;
  duration_known = true;
  duration = 7;
  message_id = codes "m";
  polling = false;
}

abbrev empty_tables : Tables
empty_tables = record { deliveries = []; http_requests = []; smtp_rejections = [] }

abbrev one_row : Tables
one_row = record empty_tables {
  deliveries = delivery_row 2_000_000 (delivery (codes "1") 2_000_000) ∷ [];
}

-- Two events arrive, and both are written.
abbrev happened : List Happening
happened =
    record {
      event = recorded 5_000_000 (codes "r") (delivery (codes "1") 5_000_000);
      now = 5_000_000;
      answers = [];
    }
    ∷ record {
      event = recorded 6_000_000 (codes "s") (delivery [] 6_000_000);
      now = 6_000_000;
      answers = [];
    }
    ∷ record { event = received; now = 7_000_000; answers = [] }
    ∷ record { event = received; now = 7_000_000; answers = [] }
    ∷ record { event = flush_tick; now = 8_000_000; answers = [] }
    ∷ []

abbrev after_all : Analytics
after_all =
    run (λ s. s) (with_defaults counting) happened (open_analytics counting 0 [] empty_tables)

both_written :
    (after_all.tables.deliveries
      ≡ delivery_row 6_000_000 (delivery (codes "s") 6_000_000)
        ∷ delivery_row 5_000_000 (delivery (codes "1") 5_000_000)
        ∷ [])
    × (after_all.pending ≡ pos 0)
unfolding run open_analytics write_batch eq_bytes succeeds
both_written = (refl, refl)

run-IsCounted_example : IsCounted (
    work
      (run (λ s. s) (with_defaults counting) happened (open_analytics counting 0 [] empty_tables)))
run-IsCounted_example = run-IsCounted (λ s. s) counting 0 [] empty_tables happened

abbrev idle : Analytics
idle = fresh_analytics one_row

write_batch-Batched_example :
    Batched
      (5_000_000 - counting.analytics_event_ttl)
      (delivery (codes "1") 3_000_000 ∷ [])
      one_row
      (write_batch counting 5_000_000 (delivery (codes "1") 3_000_000 ∷ []) idle [])
write_batch-Batched_example =
    write_batch-Batched counting 5_000_000 (delivery (codes "1") 3_000_000 ∷ []) idle []

-- Two events wait, and the first write fails.
abbrev waiting : Analytics
waiting = record idle {
  connected = true;
  queue =
      record { event = delivery (codes "1") 3_000_000; queued_at = 3 }
      ∷ record { event = delivery (codes "2") 4_000_000; queued_at = 4 }
      ∷ [];
}

drain_lem_example :
    drain counting 5_000_000 (suc (length waiting.queue) + 4) waiting (fails ∷ [])
    ≡ drain counting 5_000_000 (suc (length waiting.queue)) waiting (fails ∷ [])
drain_lem_example = drain_lem counting 5_000_000 4 waiting (fails ∷ [])
