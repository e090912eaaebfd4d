-- ===== src/Regulatory/Service/OneActive.antt =====
-- One active version for each key (Activate of internal/application/regulatory/service.go).
use cross_border_ecommerce.Base.{
  ℕ, ◌≤◌, ◌≡◌, refl, sym, ap, ◌∙◌, subst, false, List, Option, none, some, arith, Text, ok,
  >>=-eq-ok, ok-injective, fail_if, not, invalid_transition,
}
use cross_border_ecommerce.Regulatory.Dataset.{
  Dataset, Status, loaded, active, is_active, activate, supersede,
}
use cross_border_ecommerce.Regulatory.Service.{
  DatasetActivated, Session, fault, find_id, find_active, update_rows, has_target, save_lifecycle,
  supersede_previous, activate_dataset,
}
use cross_border_ecommerce.Regulatory.Service.Counting.{
  count_active, count_id, find_active-none, closing-found, activating-le, count_id-update_rows,
}

save_lifecycle-ok :
    (db : Session) (d : Dataset) (expected : Status) (rows rows' : List Dataset)
    → save_lifecycle db d expected rows ≡ ok rows'
    → update_rows d expected rows ≡ rows'
unfolding save_lifecycle
save_lifecycle-ok db d expected rows rows' h =
    let (u, e, h0) = >>=-eq-ok (fault (db.save_fault (update_rows d expected rows))) _ h in
    let (u1, e1, h1) =
      >>=-eq-ok (fail_if (not (has_target d expected rows)) invalid_transition) _ h0 in
    ok-injective h1

supersede-closed :
    (now : ℕ) (p p' : Dataset)
    → supersede now p ≡ ok p'
    → (p'.id ≡ p.id) × (is_active p'.status ≡ false)
unfolding supersede
supersede-closed now p p' h = ground arith

activate-id : (now : ℕ) (d d' : Dataset) → activate now d ≡ ok d' → d'.id ≡ d.id
unfolding activate
activate-id now d d' h = ground arith

-- After the supersession, at most the other versions that were in force are left.
supersede_previous-count :
    (db : Session) (d : Dataset) (o : Option Dataset) (rows : List Dataset)
    (x : List Dataset × Text) (id : Text)
    → find_active d rows ≡ o
    → count_active d rows ≤ 1
    → supersede_previous db o rows ≡ ok x
    → (count_active d x.0 ≡ 0) × (count_id id x.0 ≡ count_id id rows)
unfolding supersede_previous
supersede_previous-count db d none rows x id e c h =
    subst
      (λ (y : List Dataset × Text). (count_active d y.0 ≡ 0) × (count_id id y.0 ≡ count_id id rows))
      (ok-injective h) (find_active-none d rows e, refl)
supersede_previous-count db d (some p) rows x id e c h =
    let (p', e1, h1) = >>=-eq-ok (supersede db.now p) _ h in
    let (rows', e2, h2) = >>=-eq-ok (save_lifecycle db p' active rows) _ h1 in
    let (i, a) = supersede-closed db.now p p' e1 in
    subst
      (λ (y : List Dataset × Text). (count_active d y.0 ≡ 0) × (count_id id y.0 ≡ count_id id rows))
      (ok-injective h2)
      (subst (λ (r : List Dataset). (count_active d r ≡ 0) × (count_id id r ≡ count_id id rows))
        (save_lifecycle-ok db p' active rows rows' e2)
        (omega (arith, closing-found d p p' rows e i a, c), count_id-update_rows id p' active rows))

activated-count :
    (db : Session) (d' d : Dataset) (rows saved rows' : List Dataset) (x : List Dataset × Text)
    → d' ≡ d
    → saved ≡ rows'
    → supersede_previous db (find_active d' rows) rows ≡ ok x
    → save_lifecycle db d' loaded x.0 ≡ ok saved
    → count_active d rows ≤ 1
    → count_id d.id rows ≤ 1
    → count_active d rows' ≤ 1
activated-count db d' d rows saved rows' x e e' hs hv c n =
    let c' : count_active d' rows ≤ 1 = subst (λ y. count_active y rows ≤ 1) (sym e) c in
    let n' : count_id d'.id rows ≤ 1 = subst (λ (y : Dataset). count_id y.id rows ≤ 1) (sym e) n in
    let (zero_left, ids) =
      supersede_previous-count db d' (find_active d' rows) rows x d'.id refl c' hs in
    let saved_le : count_active d' (update_rows d' loaded x.0) ≤ 1 =
      omega (arith, activating-le d' d' loaded x.0, zero_left, ids, n') in
    subst (λ y. count_active y rows' ≤ 1) e
      (subst (λ r. count_active d' r ≤ 1) (save_lifecycle-ok db d' loaded x.0 saved hv ∙ e')
        saved_le)

-- An activation leaves at most one version in force for the key of the dataset that it activated, if
-- there was at most one before and no two rows share its id; the unique index of the database is not
-- needed for that.
pub activate_dataset-one :
    (db : Session) (id : Text) (rows rows' : List Dataset) (event : DatasetActivated)
    → activate_dataset db id rows ≡ ok (rows', event)
    → count_active event.dataset rows ≤ 1
    → count_id event.dataset.id rows ≤ 1
    → count_active event.dataset rows' ≤ 1
unfolding activate_dataset
activate_dataset-one db id rows rows' event h c n =
    let (event_id, e0, h0) = >>=-eq-ok db.event_id _ h in
    let (u1, e1, h1) = >>=-eq-ok (fault db.get_fault) _ h0 in
    let (d, e2, h2) = >>=-eq-ok (find_id id rows) _ h1 in
    let (d', e3, h3) = >>=-eq-ok (activate db.now d) _ h2 in
    let (u4, e4, h4) = >>=-eq-ok (fault db.active_fault) _ h3 in
    let (x, e5, h5) = >>=-eq-ok (supersede_previous db (find_active d' rows) rows) _ h4 in
    let (saved, e6, h6) = >>=-eq-ok (save_lifecycle db d' loaded x.0) _ h5 in
    let (u7, e7, h7) = >>=-eq-ok (fault db.outbox_fault) _ h6 in
    let (u8, e8, h8) = >>=-eq-ok (fault db.commit_fault) _ h7 in
    let same = ok-injective h8 in
    activated-count db d' event.dataset rows saved rows' x
      (ap (λ (y : List Dataset × DatasetActivated). y.1.dataset) same)
      (ap (λ (y : List Dataset × DatasetActivated). y.0) same) e5 e6 c n
