-- ===== src/Delivery/Outbox/Claims.antt =====
-- The soundness of `claim_ready` on valid tables.
use astrbot_plugin_groupmate.Prelude.{
  Among, ℕ, ◌+◌, ◌≤◌, ℤ, pos, leb_ℤ, ltb_ℤ, ◌==◌, ◌≡◌, refl, sym, ap, subst, ◌∙◌, Bool, true, false,
  not, none, some, List, [], ◌∷◌, ◌++◌, map, length, length-append, any, All, All-append,
  All-map_of, keep, find, Bool-cases, inl, inr, if◌then◌else◌, arith,
}
use astrbot_plugin_groupmate.Result.{
  Result, ok, ok-injective, require, require-true, value_error, overflow_error,
}
use astrbot_plugin_groupmate.Exec.{
  Exec, throw, pure, gets, on_lift, on_run, on_transaction, ◌>>=◌, ◌>>◌,
}
use astrbot_plugin_groupmate.Delivery.Contracts.{
  sending, DeliveryPart, DeliveryBundle, OutboxPart, create_part,
}
use astrbot_plugin_groupmate.Delivery.Database.{
  BundleRow, OutboxRow, Database, is_int64, has_id, is_ready, ready_joined,
}
use astrbot_plugin_groupmate.Delivery.Database.Rows.{RowMoves, find-Grows}
use astrbot_plugin_groupmate.Delivery.Database.Valid.{IsValid, IsFaithful}
use astrbot_plugin_groupmate.Delivery.Database.Evolution.{Evolves, Evolves-refl, Evolves-trans}
use astrbot_plugin_groupmate.Delivery.Database.Sweep.{Holds, sweep}
use astrbot_plugin_groupmate.Delivery.Outbox.{
  OutboxService, is_authorized, bundle_from_dict, in_memory_part, is_due, expire_ready,
}
use astrbot_plugin_groupmate.Delivery.Outbox.Claim.{
  earlier_statuses, is_one, is_settled, is_ready_part, mark_sending, claim_row, claim_rows,
  claim_ready,
}
use astrbot_plugin_groupmate.Delivery.Outbox.Claimed.{claim_row-Safe}
use astrbot_plugin_groupmate.Delivery.Outbox.Expiry.{
  lapse, expire_ready-sweep, expire_ready_late, expired-Evolves,
}
use astrbot_plugin_groupmate.Delivery.Outbox.Snapshot.{
  none-due, in-time, find-own_id, ready_joined-All,
}
use astrbot_plugin_groupmate.Delivery.Outbox.Sending.{
  IsClaimed, earlier-settled, marked, marked-IsClaimed, mark-IsClaimed, marked-bundle_id,
}

-- A part as `claim_ready` returns it: its row, claimed, is of a stored bundle, and that bundle, as it
-- reads back, is authorized and gives the part its ids.
pub record IsHandedOut (svc : OutboxService) (now : ℤ) (db : Database) (c : OutboxPart)
    : Type 0 where
  pub claimed : IsClaimed now db c.part
  pub stored_row : BundleRow
  pub stored : Among stored_row db.bundles
  pub own_bundle : stored_row.bundle_id ≡ claimed.row.bundle_id
  pub bundle : DeliveryBundle
  pub read_back : bundle_from_dict stored_row.bundle_json ≡ ok bundle
  pub authorized : is_authorized svc bundle ≡ ok true
  pub made : c ≡ in_memory_part bundle c.part sending none

-- What one round of the claiming loop does.
record IsRound (svc : OutboxService) (now : ℤ) (db db' : Database) (got : List OutboxPart)
    : Type 0 where
  new : All (IsHandedOut svc now db') got
  old :
      (p : DeliveryPart) (c : IsClaimed now db p)
      → (c' : IsClaimed now db' p) × (c'.row.bundle_id ≡ c.row.bundle_id)
  bundles : db'.bundles ≡ db.bundles
  few : length got ≤ 1

same_result : {A : Type 0} {a b : A} {s t : Database} → pure a s ≡ pure b t → (a ≡ b) × (s ≡ t)
same_result h = (ok-injective (ap (λ x. x.0) h), ap (λ x. x.1) h)

idle :
    (svc : OutboxService) (now : ℤ) (db : Database) {db' : Database} {got : List OutboxPart}
    → pure [] db ≡ pure got db'
    → IsRound svc now db db' got
idle svc now db h =
    let (a, b) = same_result h in
    rw (← a, ← b) (record { new = tt; old = λ p c. (c, refl); bundles = refl; few = omega arith })

mark-IsRound :
    (svc : OutboxService) (now : ℤ) (b : BundleRow) (bundle : DeliveryBundle) (part : DeliveryPart)
    (db : Database)
    → Among b db.bundles
    → bundle_from_dict b.bundle_json ≡ ok bundle
    → is_authorized svc bundle ≡ ok true
    → (is_one (keep (is_ready_part part.part_id) db.outbox) ≡ true
        → (c : IsClaimed now (marked part.part_id db) part) × (b.bundle_id ≡ c.row.bundle_id))
    → (one : Bool) → is_one (keep (is_ready_part part.part_id) db.outbox) ≡ one
    → IsRound svc now db
        (marked part.part_id db)
        (if one then in_memory_part bundle part sending none ∷ [] else [])
unfolding in_memory_part
mark-IsRound svc now b bundle part db there reads auth claimed true e = record {
  new = (
    record {
      claimed = (claimed e).0;
      stored_row = b;
      stored = there;
      own_bundle = (claimed e).1;
      bundle = bundle;
      read_back = reads;
      authorized = auth;
      made = refl;
    },
    tt,
  );
  old = λ p c.
      let c' = marked-IsClaimed now part.part_id db p c in
      (c', marked-bundle_id now part.part_id db p c' c.found);
  bundles = refl;
  few = omega arith;
}
mark-IsRound svc now b bundle part db there reads auth claimed false e = record {
  new = tt;
  old = λ p c.
      let c' = marked-IsClaimed now part.part_id db p c in
      (c', marked-bundle_id now part.part_id db p c' c.found);
  bundles = refl;
  few = omega arith;
}

-- A row of the snapshot that the loop runs over, in the tables as they are at its round.
abbrev IsCandidate : ℤ → Database → OutboxRow → Type 0
IsCandidate now db row =
    IsFaithful row
    × (ltb_ℤ now row.expires_at ≡ true)
    × ((cur : OutboxRow) × (find (has_id row.part_id) db.outbox ≡ some cur) × RowMoves row cur)

claim_row-IsRound :
    (svc : OutboxService) (now : ℤ) (row : OutboxRow) (b : BundleRow) (db : Database)
    {db' : Database} {got : List OutboxPart}
    → IsValid db
    → IsCandidate now db row
    → Among b db.bundles
    → b.bundle_id ≡ row.bundle_id
    → claim_row svc (row, b) db ≡ (ok got, db')
    → IsRound svc now db db' got
unfolding claim_row mark_sending
claim_row-IsRound svc now row b db v (f, t, (cur, e, m)) there own h =
    on_lift (bundle_from_dict b.bundle_json) _ h λ bundle hb h0.
      on_lift (is_authorized svc bundle) _ h0 λ allowed ha h1. elim (Bool-cases allowed) [
        | inr refused ↦ idle svc now db (rw refused at h1)
        | inl auth ↦ on_lift (create_part row.payload_json) _ (rw auth at h1) λ part hp h2.
            let same : row.payload_json ≡ part = ok-injective (sym f.readable ∙ hp) in
            on_lift
              (earlier_statuses part.order (keep (λ r. r.bundle_id == row.bundle_id) db.outbox)) _
              h2
              λ es he h3. elim (Bool-cases (any (λ s. not (is_settled s)) es)) [
                | inl blocked ↦ idle svc now db (rw blocked at h3)
                | inr free ↦
                    let key : row.part_id ≡ part.part_id =
                      sym f.part_id ∙ ap (λ (p : DeliveryPart). p.part_id) same in
                    let done = same_result (rw free at h3) in
                    rw (← done.0, ← done.1)
                      (mark-IsRound svc now b bundle part db there hb (ha ∙ ap ok auth)
                        (λ one.
                          let c =
                            mark-IsClaimed now db part cur v (rw (← key) e) (m.payload_json ∙ same)
                              (m.part_id ∙ key) (rw m.expires_at t)
                              (rw m.bundle_id (
                                earlier-settled row.bundle_id part.order db.outbox es v.faithful he
                                  free))
                              one in
                          (
                            c,
                            own
                                ∙ sym m.bundle_id
                                ∙ sym (
                                    marked-bundle_id now part.part_id db part {cur = cur} c
                                      (rw (← key) e)),
                          ))
                        _ refl)
              ]
      ]

-- A row of the snapshot, in the tables that the loop starts from.
abbrev IsSnapshot : ℤ → Database → OutboxRow → Type 0
IsSnapshot now db row = (IsFaithful row × (is_due now row ≡ false)) × Holds db row

-- A row of the snapshot with the bundle that it is joined with.
abbrev IsJoined : ℤ → Database → OutboxRow × BundleRow → Type 0
IsJoined now db x =
    IsSnapshot now db x.0
    × (is_ready x.0.status ≡ true)
    × Among x.1 db.bundles
    × (x.1.bundle_id ≡ x.0.bundle_id)

room :
    (limit : ℤ) (n m : ℕ) → leb_ℤ limit (pos n) ≡ false → m ≤ 1 → leb_ℤ (pos (n + m)) limit ≡ true
room limit n m h k = ground arith

claim_rows_sound :
    (svc : OutboxService) (now limit : ℤ) (start : Database) (rows : List (OutboxRow × BundleRow))
    (claimed : List OutboxPart) (db : Database) {db' : Database} {res : List OutboxPart}
    → Evolves start db
    → db.bundles ≡ start.bundles
    → All (IsJoined now start) rows
    → All (IsHandedOut svc now db) claimed
    → leb_ℤ (pos (length claimed)) limit ≡ true
    → claim_rows svc limit rows claimed db ≡ (ok res, db')
    → All (IsHandedOut svc now db') res × (leb_ℤ (pos (length res)) limit ≡ true)
unfolding claim_rows
claim_rows_sound svc now limit start [] claimed db ev bs s a l h =
    let done = same_result h in rw (← done.0, ← done.1) (a, l)
claim_rows_sound svc now limit start ((row, b) ∷ rows) claimed db ev bs s a l h =
    elim (Bool-cases (leb_ℤ limit (pos (length claimed)))) [
      | inl full ↦ let done = same_result (rw full at h) in rw (← done.0, ← done.1) (a, l)
      | inr below ↦ on_run (claim_row svc (row, b)) _ (rw below at h) λ got mid hm h1.
          let (((f, due), held), waits, there, own) = s.0 in
          let round =
            claim_row-IsRound svc now row b db ev.valid
              (
                f,
                in-time now row due waits,
                find-Grows row.part_id start.outbox db.outbox ev.rows held,
              )
              (rw bs there) own hm in
          let step : Evolves db mid =
            subst (λ (x : Result (List OutboxPart) × Database). Evolves db x.1) hm
              ((claim_row-Safe svc (row, b)).at db ev.valid) in
          claim_rows_sound svc now limit start rows (claimed ++ got) mid
            (Evolves-trans start db mid ev step) (round.bundles ∙ bs) s.1
            (All-append (IsHandedOut svc now mid) claimed got
              (All-map_of
                (λ c o. record {
                  claimed = (round.old c.part o.claimed).0;
                  stored_row = o.stored_row;
                  stored = rw round.bundles o.stored;
                  own_bundle = o.own_bundle ∙ sym (round.old c.part o.claimed).1;
                  bundle = o.bundle;
                  read_back = o.read_back;
                  authorized = o.authorized;
                  made = o.made;
                })
                claimed a)
              round.new)
            (rw (length-append claimed got)
              (room limit (length claimed) (length got) below round.few))
            h1
    ]

All-both :
    {A : Type 0} (P Q : A → Type 0) (xs : List A) → All P xs → All Q xs → All (λ x. P x × Q x) xs
All-both P Q [] h k = tt
All-both P Q (x ∷ xs) h k = ((h.0, k.0), All-both P Q xs h.1 k.1)

snapshots :
    (now : ℤ) (db : Database)
    → IsValid db
    → All (λ r. is_due now r ≡ false) db.outbox
    → All (IsSnapshot now db) db.outbox
snapshots now db v d =
    All-both _ _ db.outbox (All-both _ _ db.outbox v.faithful d) (find-own_id db.outbox v.part_ids)

positive : (limit : ℤ) → not (ltb_ℤ limit (pos 1)) ≡ true → leb_ℤ (pos 0) limit ≡ true
positive limit h = ground arith

-- On valid tables, `claim_ready` that returns has returned at most `limit` parts, and each of them
-- has a row in the table that is now `sending` and has not expired, is returned with the ids of the
-- stored bundle that its row belongs to, which is authorized, and every part of that bundle with a
-- smaller order is sent, suppressed or expired.
pub claim_ready_sound :
    (svc : OutboxService) (now limit : ℤ) (db : Database) {db' : Database} {res : List OutboxPart}
    → IsValid db
    → claim_ready svc now limit db ≡ (ok res, db')
    → All (IsHandedOut svc now db') res × (leb_ℤ (pos (length res)) limit ≡ true)
unfolding claim_ready
claim_ready_sound svc now limit db v h =
    on_lift (require (not (ltb_ℤ limit (pos 1))) value_error) _ h λ _ hr h1.
      let body : Exec Database (List OutboxPart) = (do
        expire_ready now
        rows ← gets (λ (s : Database). ready_joined s.outbox s.bundles)
        claim_rows svc limit rows []) in
      on_transaction body {s = db} h1 λ h2. elim (Bool-cases (is_int64 now)) [
        | inr late ↦ absurd (late_raises (rw (expire_ready_late now db late) at h2))
        | inl fits ↦
            let start = record db { outbox = map (sweep (is_due now) lapse) db.outbox } in
            let ev : Evolves db start = expired-Evolves now db v in
            claim_rows_sound svc now limit start (ready_joined start.outbox start.bundles) [] start
              (Evolves-refl start ev.valid) refl
              (ready_joined-All (IsSnapshot now start) start.outbox start.bundles
                (snapshots now start ev.valid (none-due now db.outbox)))
              tt (positive limit (require-true _ value_error hr))
              (rw (expire_ready-sweep now db v fits) at h2)
      ]
  where
    late_raises : {s t : Database} {r : List OutboxPart} → throw overflow_error s ≡ pure r t → ⊥
    late_raises h = absurd (cc)
