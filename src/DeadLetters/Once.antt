-- ===== src/DeadLetters/Once.antt =====
-- What a replay does, and that a message is replayed once (internal/application/dlq/replay.go).
use cross_border_ecommerce.Base.{
  ◌≡◌, refl, sym, ap, ◌∙◌, [], ◌∷◌, ◌++◌, text_eq, text_eq_refl, subst, Bool, true, false, not,
  Option, none, some, Text, is_blank, Error, ok, fail_if, >>=-eq-ok, ok-injective, some-injective,
  false-ne-true, invalid_dlq_id, not_replayable, already_replayed,
}
use cross_border_ecommerce.DeadLetters.Replay.{
  Status, dead, replayed, ReplaySource, ReplayEvent, valid_outbox_id, DlqRow, Store, Session,
  get_replay_source, replay_event, put_row, mark_row, mark_replayed, create, replay_in_tx,
  replay_checked, parsed, fault, found_row,
}

checked : (b : Bool) (e : Error) (u : Unit {0}) → fail_if (not b) e ≡ ok u → b ≡ true
checked true e u h = refl
checked false e u h = cc

-- A replay that found a dead message, and what it left: the message marked, the other messages as they
-- were, and one event more, which carries the message to its consumer group under its own event id.
pub record IsReplayed (key outbox_id : Text) (s s' : Store) : Type 0 where
  pub row : DlqRow
  pub stored : s.messages key ≡ some row
  pub was_dead : row.status ≡ dead
  pub was_replayable : row.source.replayable ≡ true
  pub row' : DlqRow
  pub stored' : s'.messages key ≡ some row'
  pub is_replayed : row'.status ≡ replayed
  pub is_linked : row'.replay_outbox_id ≡ some outbox_id
  pub is_same : row'.source ≡ row.source
  pub others : (k : Text) → text_eq k key ≡ false → s'.messages k ≡ s.messages k
  pub event : ReplayEvent
  pub appended : s'.outbox ≡ s.outbox ++ (event ∷ [])
  pub id : event.id ≡ outbox_id
  pub event_id : event.replay_of_event_id ≡ row.source.event_id
  pub target : event.target_group ≡ row.source.consumer_group
  pub event_type : event.event_type ≡ row.source.event_type
  pub aggregate_type : event.aggregate_type ≡ row.source.aggregate_type
  pub aggregate_id : event.aggregate_id ≡ row.source.aggregate_id
  pub payload : event.payload ≡ row.source.payload

parsed-ok : (o : Option Text) (k : Text) → parsed o ≡ ok k → o ≡ some k
parsed-ok none k h = cc
parsed-ok (some id) k h = ap some (ok-injective h)

found_row-ok : (o : Option DlqRow) (r : DlqRow) → found_row o ≡ ok r → o ≡ some r
found_row-ok none r h = cc
found_row-ok (some x) r h = ap some (ok-injective h)

get_replay_source-ok :
    (db : Session) (id : Text) (s : Store) (src : ReplaySource)
    → get_replay_source db id s ≡ ok src
    → (key : Text) × ((db.uuid_of id ≡ some key)
        × ((r : DlqRow) × ((s.messages key ≡ some r) × (r.source ≡ src))))
unfolding get_replay_source
get_replay_source-ok db id s src h =
    let (key, e, h0) = >>=-eq-ok (parsed (db.uuid_of id)) _ h in
    let (u, e1, h1) = >>=-eq-ok (fault db.get_fault) _ h0 in
    let (r, e2, h2) = >>=-eq-ok (found_row (s.messages key)) _ h1 in
    (
      key,
      (parsed-ok (db.uuid_of id) key e, (r, (found_row-ok (s.messages key) r e2, ok-injective h2))),
    )

-- What a row has become where it was marked.
abbrev Marks : Text → Text → Option DlqRow → Store → Store → Type 0
Marks key outbox_id o s s' =
    (r : DlqRow) × ((o ≡ some r)
      × ((r.status ≡ dead)
          × (s'
              ≡ put_row key (record r { status = replayed; replay_outbox_id = some outbox_id }) s)))

mark_status :
    (key outbox_id : Text) (r : DlqRow) (status : Status) (s : Store) (x : Bool × Store)
    → r.status ≡ status
    → (elim status [
      | dead ↦
          (true, put_row key (record r { status = replayed; replay_outbox_id = some outbox_id }) s)
      | replayed ↦ (false, s)
    ])
      ≡ x
    → x.0 ≡ true
    → Marks key outbox_id (some r) s x.1
mark_status key outbox_id r dead s x e h t = (r, (refl, (e, ap (λ y. y.1) (sym h))))
mark_status key outbox_id r replayed s x e h t = elim (false-ne-true (ap (λ y. y.0) h ∙ t)) [ ]

mark_row-true :
    (key outbox_id : Text) (o : Option DlqRow) (s : Store) (x : Bool × Store)
    → mark_row key outbox_id o s ≡ x
    → x.0 ≡ true
    → Marks key outbox_id o s x.1
unfolding mark_row
mark_row-true key outbox_id none s x h t = elim (false-ne-true (ap (λ y. y.0) h ∙ t)) [ ]
mark_row-true key outbox_id (some r) s x h t = mark_status key outbox_id r r.status s x refl h t

mark_replayed-ok :
    (db : Session) (id key outbox_id : Text) (s : Store) (x : Bool × Store)
    → db.uuid_of id ≡ some key
    → mark_replayed db id outbox_id s ≡ ok x
    → x.0 ≡ true
    → Marks key outbox_id (s.messages key) s x.1
unfolding mark_replayed
mark_replayed-ok db id key outbox_id s x e h t =
    let (v, e0, h0) = >>=-eq-ok (valid_outbox_id (db.uuid_of outbox_id)) _ (rw e at h) in
    let (u, e1, h1) = >>=-eq-ok (fault db.mark_fault) _ h0 in
    mark_row-true key outbox_id (s.messages key) s x (ok-injective h1) t

-- The row as it is put, and the event as it is made, are as they are to be.
put-IsReplayed :
    (key outbox_id : Text) (s : Store) (r : DlqRow)
    → s.messages key ≡ some r
    → r.status ≡ dead
    → r.source.replayable ≡ true
    → IsReplayed key outbox_id s (
        put_row key
          (record r { status = replayed; replay_outbox_id = some outbox_id })
          (create (replay_event outbox_id r.source) s))
put-IsReplayed key outbox_id s r e d p = record {
  row = r;
  stored = e;
  was_dead = d;
  was_replayable = p;
  row' = record r { status = replayed; replay_outbox_id = some outbox_id };
  stored' = rw (text_eq_refl key) refl;
  is_replayed = refl;
  is_linked = refl;
  is_same = refl;
  others = λ k h. rw h refl;
  event = replay_event outbox_id r.source;
  appended = refl;
  id = refl;
  event_id = refl;
  target = refl;
  event_type = refl;
  aggregate_type = refl;
  aggregate_id = refl;
  payload = refl;
}

same-IsReplayed :
    (key outbox_id : Text) (s s' : Store) (r r' : DlqRow) (src : ReplaySource)
    → s.messages key ≡ some r
    → s.messages key ≡ some r'
    → r.source ≡ src
    → src.replayable ≡ true
    → r'.status ≡ dead
    → s'
      ≡ put_row key
          (record r' { status = replayed; replay_outbox_id = some outbox_id })
          (create (replay_event outbox_id src) s)
    → IsReplayed key outbox_id s s'
same-IsReplayed key outbox_id s s' r r' src e e' es p d m =
    let source_eq = ap (λ x. x.source) (sym (some-injective (sym e ∙ e'))) ∙ es in
    subst (IsReplayed key outbox_id s)
      (ap
          (λ x.
            put_row key (record r' { status = replayed; replay_outbox_id = some outbox_id })
              (create (replay_event outbox_id x) s))
          source_eq
        ∙ sym m)
      (put-IsReplayed key outbox_id s r' e' d (ap (λ x. x.replayable) source_eq ∙ p))

replay_in_tx-ok :
    (db : Session) (id outbox_id : Text) (s s' : Store)
    → replay_in_tx db id outbox_id s ≡ ok s'
    → (key : Text) × ((db.uuid_of id ≡ some key) × IsReplayed key outbox_id s s')
unfolding replay_in_tx
replay_in_tx-ok db id outbox_id s s' h =
    let (src, e, h0) = >>=-eq-ok (get_replay_source db id s) _ h in
    let (u1, e1, h1) = >>=-eq-ok (fail_if (not src.replayable) not_replayable) _ h0 in
    let (u2, e2, h2) = >>=-eq-ok (fault db.create_fault) _ h1 in
    let (x, e3, h3) =
      >>=-eq-ok (mark_replayed db id outbox_id (create (replay_event outbox_id src) s)) _ h2 in
    let (u4, e4, h4) = >>=-eq-ok (fail_if (not x.0) already_replayed) _ h3 in
    let (u5, e5, h5) = >>=-eq-ok (fault db.commit_fault) _ h4 in
    let (key, (ek, (r, (er, es)))) = get_replay_source-ok db id s src e in
    let (r', (er', (d, m))) =
      mark_replayed-ok db id key outbox_id (create (replay_event outbox_id src) s) x ek e3
        (checked x.0 already_replayed u4 e4) in
    (
      key,
      (
        ek,
        same-IsReplayed key outbox_id s s' r r' src er er' es
            (checked src.replayable not_replayable u1 e1) d (sym (ok-injective h5) ∙ m),
      ),
    )

-- A replay that succeeds found the message of its id dead and replayable; it marked the message as
-- replayed under the id that it answers, and appended one event to the outbox, which carries that
-- id, the message's own event id, type, aggregate and payload, and its consumer group as the target.
-- No other message and no other event changed.
pub replay_checked-IsReplayed :
    (db : Session) (id outbox_id : Text) (s s' : Store)
    → replay_checked db id s ≡ ok (outbox_id, s')
    → (key : Text) × ((db.uuid_of id ≡ some key) × IsReplayed key outbox_id s s')
unfolding replay_checked
replay_checked-IsReplayed db id outbox_id s s' h =
    let (u, e, h0) = >>=-eq-ok (fail_if (is_blank id) invalid_dlq_id) _ h in
    let (o, e1, h1) = >>=-eq-ok db.fresh _ h0 in
    let (t, e2, h2) = >>=-eq-ok (replay_in_tx db id o s) _ h1 in
    let same = ok-injective h2 in
    let (key, (ek, r)) = replay_in_tx-ok db id o s t e2 in
    (key, (ek, subst (λ x. IsReplayed key x.0 s x.1) same r))
