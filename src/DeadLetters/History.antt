-- ===== src/DeadLetters/History.antt =====
-- Any sequence of replays (internal/application/dlq/replay.go): a message is replayed at most once.
use cross_border_ecommerce.Base.{
  ℕ, ◌+◌, ◌≤◌, ◌≡◌, refl, ap, ◌∙◌, Bool, true, false, List, [], ◌∷◌, Option, none, some, arith,
  some-injective, Text, text_eq, text_eq→eq, Result, ok, err,
}
use cross_border_ecommerce.DeadLetters.Replay.{
  Status, dead, replayed, DlqRow, Store, Session, replay_checked, committed, replay,
}
use cross_border_ecommerce.DeadLetters.Once.{IsReplayed, replay_checked-IsReplayed}

abbrev names : Option Text → Text → Bool
names none key = false
names (some k) key = text_eq key k

-- 1 where the answer is a success on the message.
abbrev pub success : Result Text → Bool → ℕ
success (ok id) true = 1
success (ok id) false = 0
success (err e) b = 0

unfoldable pub run : List (Session × Text) → Store → Store
run [] s = s
run ((db, id) ∷ rs) s = run rs (replay db id s).0

-- The replays of a message that succeed in a sequence of replays.
unfoldable pub successes : Text → List (Session × Text) → Store → ℕ
successes key [] s = 0
successes key ((db, id) ∷ rs) s =
    success (replay db id s).1 (names (db.uuid_of id) key) + successes key rs (replay db id s).0

-- 1 for a message that is dead, 0 for one that is replayed or not there.
abbrev is_dead : Status → ℕ
is_dead dead = 1
is_dead replayed = 0

abbrev dead_count : Option DlqRow → ℕ
dead_count none = 0
dead_count (some r) = is_dead r.status

is_dead-le-one : (status : Status) → is_dead status ≤ 1
is_dead-le-one dead = omega arith
is_dead-le-one replayed = omega arith

dead_count-dead : (o : Option DlqRow) (r : DlqRow) → o ≡ some r → r.status ≡ dead → dead_count o ≡ 1
dead_count-dead none r e d = cc
dead_count-dead (some x) r e d = rw (some-injective e) (rw d refl)

-- A success uses up the dead message, and leaves the others.
replayed-dead_count :
    (b : Bool) (id key k : Text) (s s' : Store)
    → text_eq key k ≡ b
    → IsReplayed k id s s'
    → success (ok id) b + dead_count (s'.messages key) ≤ dead_count (s.messages key)
replayed-dead_count true id key k s s' e r =
    let same = ap s.messages (text_eq→eq key k e) in
    let same' = ap s'.messages (text_eq→eq key k e) in
    omega (
      arith,
      dead_count-dead (s.messages key) r.row (same ∙ r.stored) r.was_dead,
      ap dead_count (same' ∙ r.stored'),
      ap is_dead r.is_replayed,
    )
replayed-dead_count false id key k s s' e r = omega (arith, ap dead_count (r.others key e))

step-dead_count :
    (key : Text) (db : Session) (id : Text) (s : Store) (x : Result (Text × Store))
    → replay_checked db id s ≡ x
    → success (committed s x).1 (names (db.uuid_of id) key)
        + dead_count ((committed s x).0.messages key)
      ≤ dead_count (s.messages key)
step-dead_count key db id s (err e) h = omega arith
step-dead_count key db id s (ok done) h =
    let (k, (ek, r)) = replay_checked-IsReplayed db id done.0 s done.1 h in
    rw ek (replayed-dead_count (text_eq key k) done.0 key k s done.1 refl r)

successes-dead_count :
    (key : Text) (rs : List (Session × Text)) (s : Store)
    → successes key rs s ≤ dead_count (s.messages key)
unfolding successes replay
successes-dead_count key [] s = omega arith
successes-dead_count key ((db, id) ∷ rs) s = omega (
  arith,
  step-dead_count key db id s (replay_checked db id s) refl,
  successes-dead_count key rs (committed s (replay_checked db id s)).0,
)

dead_count-le-one : (o : Option DlqRow) → dead_count o ≤ 1
dead_count-le-one none = omega arith
dead_count-le-one (some r) = is_dead-le-one r.status

-- A message is replayed at most once: in any sequence of replays of any messages, whatever the
-- identifiers and the errors of the database, at most one replay of a given message succeeds.
pub successes-le-one :
    (key : Text) (rs : List (Session × Text)) (s : Store) → successes key rs s ≤ 1
successes-le-one key rs s =
    omega (arith, successes-dead_count key rs s, dead_count-le-one (s.messages key))
