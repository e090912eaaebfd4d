-- ===== src/Tests/DeadLetters.antt =====
-- Failures and replays at concrete inputs (internal/application/dlq).
use cross_border_ecommerce.DeadLetters.Replay.{mark_replayed}
use cross_border_ecommerce.Base.{trim_space}
use cross_border_ecommerce.DeadLetters.Replay.{get_replay_source}
use cross_border_ecommerce.DeadLetters.Replay.{replay_in_tx}
use cross_border_ecommerce.Base.{
  ◌≤◌, ◌≡◌, ◌↔◌, refl, true, false, List, [], ◌∷◌, none, some, Text, codes, text_eq, if◌then◌else◌,
  Result, ok, err, ErrorTree, leaf, wrapped, joined, another, no_more, permanent, malformed_record,
}
use cross_border_ecommerce.DeadLetters.Classify.{
  dead_letter, class_malformed_record, classify, IsSettling, IsOfClass, classify_iff,
}
use cross_border_ecommerce.DeadLetters.Replay.{dead, DlqRow, Store, Session, replay_checked}
use cross_border_ecommerce.DeadLetters.Once.{IsReplayed, replay_checked-IsReplayed}
use cross_border_ecommerce.DeadLetters.History.{successes, successes-le-one}

abbrev failure : ErrorTree
failure = joined (another (leaf permanent) (another (wrapped (leaf malformed_record)) no_more))

classify_iff_example :
    (classify failure false ≡ dead_letter class_malformed_record)
    ↔ (IsSettling failure false × IsOfClass failure class_malformed_record)
classify_iff_example = classify_iff failure false class_malformed_record

abbrev row : DlqRow
row = record {
  status = dead;
  source = record {
    consumer_group = codes "billing";
    event_id = codes "e1";
    event_type = codes "product.changed";
    aggregate_type = codes "product";
    aggregate_id = codes "p1";
    payload = codes "{}";
    replayable = true;
  };
  replay_outbox_id = none;
}

abbrev store : Store
store = record { messages = λ k. if text_eq k (codes "m1") then some row else none; outbox = [] }

abbrev session : Text → Session
session id = record {
  fresh = ok id;
  uuid_of = λ t. some t;
  get_fault = none;
  create_fault = none;
  mark_fault = none;
  commit_fault = none;
}

abbrev store_of : Result (Text × Store) → Store
store_of (ok done) = done.1
store_of (err e) = store

abbrev store_after : Store
store_after = store_of (replay_checked (session (codes "o1")) (codes "m1") store)

replay_checked-IsReplayed_example :
    (key : Text) × ((some (codes "m1") ≡ some key) × IsReplayed key (codes "o1") store store_after)
unfolding get_replay_source mark_replayed replay_checked replay_in_tx text_eq trim_space
replay_checked-IsReplayed_example =
    replay_checked-IsReplayed (session (codes "o1")) (codes "m1") (codes "o1") store store_after
      refl

abbrev twice : List (Session × Text)
twice = (session (codes "o1"), codes "m1") ∷ (session (codes "o2"), codes "m1") ∷ []

successes-le-one_example : successes (codes "m1") twice store ≤ 1
successes-le-one_example = successes-le-one (codes "m1") twice store
