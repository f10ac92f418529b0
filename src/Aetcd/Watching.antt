-- ===== src/Aetcd/Watching.antt =====
-- `_watch` of etcd_fsm/_aetcd_backend.py.
use etcd_fsm.Common.{
  ℕ, zero, suc, ◌≡◌, refl, Bool, true, false, Option, none, some, ap, map, List, [], ◌∷◌,
}
use etcd_fsm.Bytes.{Bytes}
use etcd_fsm.Backend
use etcd_fsm.Backend.{WatchBatch, WatchEventKind, Error, Result, ok, err}
use etcd_fsm.Aetcd.{Client, Attempt, answered, raised, EventMessage, key_value, translate_error}
use etcd_fsm.Aetcd.Calls.{aetcd_connect}

-- What the consumer of a watch has got when it ends: the batches, and the exception that ended it.
pub record Watched : Type 0 where
  pub batches : List WatchBatch
  pub raised_error : Option Error

abbrev pub event_kind : Bool → WatchEventKind
event_kind true = Backend.WatchEventKind.put
event_kind false = Backend.WatchEventKind.delete

-- The batch that an event is yielded as.
unfoldable pub event_batch : EventMessage → WatchBatch
event_batch event = record {
  events = record { kind = event_kind event.is_put; key_value = key_value event.kv } ∷ [];
  revision = (key_value event.kv).mod_revision;
}

abbrev pub yielded : WatchBatch → Watched → Watched
yielded batch later = record later { batches = batch ∷ later.batches }

module _ {S : Type 0} (client : Client S) where
  -- A turn of the loop over the events, with the cancellation that ends the watch in every case.
  abbrev pub next_event :
      ℕ → ℕ → (S → Watched × S) → Attempt (Option EventMessage) × S → Watched × S
  next_event handle start_revision later (raised failure, s) = (
    record {
      batches = [];
      raised_error = some (translate_error failure (some start_revision) none);
    },
    client.cancel_call handle s,
  )
  next_event handle start_revision later (answered none, s) =
      (record { batches = []; raised_error = none }, client.cancel_call handle s)
  next_event handle start_revision later (answered (some event), s) =
      (yielded (event_batch event) (later s).0, (later s).1)

  -- The loop over the events of an open watch, of which the consumer takes so many at most and then closes
  -- the generator.
  unfoldable pub watch_events : ℕ → ℕ → ℕ → S → Watched × S
  watch_events handle start_revision zero s =
      (record { batches = []; raised_error = none }, client.cancel_call handle s)
  watch_events handle start_revision (suc rounds) s =
      let later = watch_events handle start_revision rounds in
      next_event handle start_revision later (client.event_call handle s)

  -- The watch that is opened, unless the client raises, when there is nothing to cancel.
  abbrev pub opened : ℕ → ℕ → Attempt ℕ × S → Watched × S
  opened start_revision rounds (raised failure, s) = (
    record {
      batches = [];
      raised_error = some (translate_error failure (some start_revision) none);
    },
    s,
  )
  opened start_revision rounds (answered handle, s) = watch_events handle start_revision rounds s

  abbrev pub after_connect : Bytes → Option Bytes → ℕ → ℕ → Result (Unit {0}) × S → Watched × S
  after_connect start end start_revision rounds (err e, s) =
      (record { batches = []; raised_error = some e }, s)
  after_connect start end start_revision rounds (ok _, s) =
      opened start_revision rounds (client.watch_call start end start_revision s)

  -- `_watch`, by a consumer that takes so many batches at most; nothing runs before the first is asked for.
  unfoldable pub aetcd_watch : Bytes → Option Bytes → ℕ → ℕ → S → Watched × S
  unfolding aetcd_connect watch_events
  aetcd_watch start end start_revision zero s = (record { batches = []; raised_error = none }, s)
  aetcd_watch start end start_revision (suc rounds) s =
      after_connect start end start_revision (suc rounds) (aetcd_connect client s)

  -- The events that the client gives, one after the other, until it raises, ends or the consumer closes; and
  -- the state in which the watch is cancelled.
  abbrev pub next_given :
      (S → List EventMessage × S) → Attempt (Option EventMessage) × S → List EventMessage × S
  next_given later (raised failure, s) = ([], s)
  next_given later (answered none, s) = ([], s)
  next_given later (answered (some event), s) = (event ∷ (later s).0, (later s).1)

  unfoldable pub given_events : ℕ → ℕ → S → List EventMessage × S
  given_events handle zero s = ([], s)
  given_events handle (suc rounds) s =
      let later = given_events handle rounds in next_given later (client.event_call handle s)

  next_event-given :
      (handle start_revision : ℕ) (later : S → Watched × S) (given : S → List EventMessage × S)
      → ((s : S)
          → ((later s).0.batches ≡ map event_batch (given s).0)
            × ((later s).1 ≡ client.cancel_call handle (given s).1))
      → (reply : Attempt (Option EventMessage) × S)
      → ((next_event handle start_revision later reply).0.batches
          ≡ map event_batch (next_given given reply).0)
        × ((next_event handle start_revision later reply).1
            ≡ client.cancel_call handle (next_given given reply).1)
  next_event-given handle start_revision later given h (raised failure, s) = (refl, refl)
  next_event-given handle start_revision later given h (answered none, s) = (refl, refl)
  next_event-given handle start_revision later given h (answered (some event), s) =
      (ap (λ batches. event_batch event ∷ batches) (h s).0, (h s).1)

  -- An open watch yields one batch for each event that the client gives, in order, and its last call cancels the
  -- watch, however it ends.
  pub watch_events_lem :
      (handle start_revision rounds : ℕ) (s : S)
      → ((watch_events handle start_revision rounds s).0.batches
          ≡ map event_batch (given_events handle rounds s).0)
        × ((watch_events handle start_revision rounds s).1
            ≡ client.cancel_call handle (given_events handle rounds s).1)
  unfolding watch_events given_events
  watch_events_lem handle start_revision zero s = (refl, refl)
  watch_events_lem handle start_revision (suc rounds) s =
      next_event-given handle start_revision (watch_events handle start_revision rounds)
        (given_events handle rounds) (watch_events_lem handle start_revision rounds)
        (client.event_call handle s)
