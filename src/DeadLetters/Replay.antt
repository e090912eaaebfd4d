-- ===== src/DeadLetters/Replay.antt =====
-- internal/application/dlq/replay.go over the statements of internal/infrastructure/postgres/queries/
-- dlq_messages.sql. A replay is one transaction, whose writes stay only if it commits.
use cross_border_ecommerce.Base.{
  Bool, true, false, not, List, [], ◌∷◌, ◌++◌, Option, none, some, if◌then◌else◌, Text, text_eq,
  is_blank, Error, Result, ok, err, ◌>>=◌, ◌>>◌, fail_if, invalid_dlq_id, dlq_not_found,
  not_replayable, already_replayed, other,
}

pub data Status : Type 0 where
  dead replayed : Status

-- ReplaySource.
pub record ReplaySource : Type 0 where
  pub consumer_group : Text
  pub event_id : Text
  pub event_type : Text
  pub aggregate_type : Text
  pub aggregate_id : Text
  pub payload : Text
  pub replayable : Bool

-- A row of dlq_messages, by the columns that a replay reads or writes.
pub record DlqRow : Type 0 where
  pub status : Status
  pub source : ReplaySource
  pub replay_outbox_id : Option Text

-- ReplayEvent.
pub record ReplayEvent : Type 0 where
  pub id : Text
  pub replay_of_event_id : Text
  pub target_group : Text
  pub event_type : Text
  pub aggregate_type : Text
  pub aggregate_id : Text
  pub payload : Text

-- The rows by their id, and the replay events of the outbox.
pub record Store : Type 0 where
  pub messages : Text → Option DlqRow
  pub outbox : List ReplayEvent

-- What one replay meets: a fresh UUID, parseUUID, and the errors of the database.
pub record Session : Type 0 where
  pub fresh : Result Text
  pub uuid_of : Text → Option Text
  pub get_fault : Option Error
  pub create_fault : Option Error
  pub mark_fault : Option Error
  pub commit_fault : Option Error

abbrev pub fault : Option Error → Result (Unit {0})
fault none = ok tt
fault (some e) = err e

abbrev pub found_row : Option DlqRow → Result DlqRow
found_row none = err dlq_not_found
found_row (some r) = ok r

abbrev pub parsed : Option Text → Result Text
parsed none = err invalid_dlq_id
parsed (some id) = ok id

-- DLQRepository.GetReplaySource.
unfoldable pub get_replay_source : Session → Text → Store → Result ReplaySource
get_replay_source db id s = do
  id' ← parsed (db.uuid_of id)
  fault db.get_fault
  r ← found_row (s.messages id')
  ok r.source

-- The event that Replay writes for a message.
abbrev pub replay_event : Text → ReplaySource → ReplayEvent
replay_event outbox_id src = record {
  id = outbox_id;
  replay_of_event_id = src.event_id;
  target_group = src.consumer_group;
  event_type = src.event_type;
  aggregate_type = src.aggregate_type;
  aggregate_id = src.aggregate_id;
  payload = src.payload;
}

abbrev pub put_row : Text → DlqRow → Store → Store
put_row id row s = record s { messages = λ k. if text_eq k id then some row else s.messages k }

-- MarkDLQMessageReplayed on the row that it meets: whether it changes the row, and the store after.
unfoldable pub mark_row : Text → Text → Option DlqRow → Store → Bool × Store
mark_row id outbox_id none s = (false, s)
mark_row id outbox_id (some r) s = elim r.status [
  | dead ↦ (true, put_row id (record r { status = replayed; replay_outbox_id = some outbox_id }) s)
  | replayed ↦ (false, s)
]

-- The check of the id of the outbox row, whose error has no sentinel.
abbrev pub valid_outbox_id : Option Text → Result (Unit {0})
valid_outbox_id none = err (other 0)
valid_outbox_id (some id) = ok tt

-- DLQRepository.MarkReplayed.
unfoldable pub mark_replayed : Session → Text → Text → Store → Result (Bool × Store)
unfolding mark_row
mark_replayed db id outbox_id s = do
  id' ← parsed (db.uuid_of id)
  valid_outbox_id (db.uuid_of outbox_id)
  fault db.mark_fault
  ok (mark_row id' outbox_id (s.messages id') s)

abbrev pub create : ReplayEvent → Store → Store
create e s = record s { outbox = s.outbox ++ (e ∷ []) }

-- The transaction of Replay up to its commit.
unfoldable pub replay_in_tx : Session → Text → Text → Store → Result Store
replay_in_tx db id outbox_id s = do
  src ← get_replay_source db id s
  fail_if (not src.replayable) not_replayable
  fault db.create_fault
  marked ← mark_replayed db id outbox_id (create (replay_event outbox_id src) s)
  fail_if (not marked.0) already_replayed
  fault db.commit_fault
  ok marked.1

-- The id that Replay answers, with the store that the transaction commits.
unfoldable pub replay_checked : Session → Text → Store → Result (Text × Store)
replay_checked db id s = do
  fail_if (is_blank id) invalid_dlq_id
  outbox_id ← db.fresh
  s' ← replay_in_tx db id outbox_id s
  ok (outbox_id, s')

-- ReplayService.Replay: a transaction that fails leaves the store as it was.
abbrev pub committed : Store → Result (Text × Store) → Store × Result Text
committed s (ok done) = (done.1, ok done.0)
committed s (err e) = (s, err e)

unfoldable pub replay : Session → Text → Store → Store × Result Text
replay db id s = committed s (replay_checked db id s)
