-- ===== src/Delivery/Outbox/Returns.antt =====
-- `claim_ready` returns: on valid tables whose bundles read back, no row that it meets makes it raise.
use astrbot_plugin_groupmate.Prelude.{
  ℤ, pos, leb_ℤ, ltb_ℤ, String, ◌==◌, ◌≡◌, refl, sym, subst, Bool, true, false, not, ◌&&◌, List, [],
  ◌∷◌, ◌++◌, map, length, any, All, All-zip, All-append, keep, Bool-cases, inl, inr, if◌then◌else◌,
}
use astrbot_plugin_groupmate.Result.{Result, ok, then_ok, require, value_error}
use astrbot_plugin_groupmate.Exec.{Exec, pure, lift, gets, transaction, ◌>>=◌, ◌>>◌}
use astrbot_plugin_groupmate.Delivery.Contracts.{
  OutboxStatus, OutboxPart, create_part, bundle_from_dict,
}
use astrbot_plugin_groupmate.Delivery.Database.{
  BundleRow, OutboxRow, Database, is_int64, is_ready, ready_joined,
}
use astrbot_plugin_groupmate.Delivery.Database.Valid.{IsValid, IsFaithful}
use astrbot_plugin_groupmate.Delivery.Database.Evolution.{Evolves, IsReadable}
use astrbot_plugin_groupmate.Delivery.Database.Sweep.{sweep}
use astrbot_plugin_groupmate.Delivery.Outbox.{OutboxService, is_authorized, is_due, expire_ready}
use astrbot_plugin_groupmate.Delivery.Outbox.Claim.{
  earlier_statuses, is_settled, mark_sending, claim_row, claim_rows, claim_ready,
}
use astrbot_plugin_groupmate.Delivery.Outbox.Claimed.{claim_row-Safe}
use astrbot_plugin_groupmate.Delivery.Outbox.Expiry.{lapse, expire_ready-sweep, expired-Evolves}

-- An action that returns from a state.
abbrev pub Returns : {A : Type 0} → Exec Database A → Database → Type 0
Returns {A = A} m s = (a : A) × ((t : Database) × (m s ≡ pure a t))

module _ {A : Type 0} where
  Returns-if :
      (b : Bool) (m n : Exec Database A) (s : Database)
      → Returns m s
      → Returns n s
      → Returns (if b then m else n) s
  Returns-if true m n s rm rn = rm
  Returns-if false m n s rm rn = rn

  Returns-transaction :
      (m : Exec Database A) (s : Database) → Returns m s → Returns (transaction m) s
  Returns-transaction m s (a, (t, e)) = (a, (t, rw e))

module _ {A B : Type 0} where
  Returns-lift :
      (r : Result A) (f : A → Exec Database B) (s : Database) {a : A}
      → r ≡ ok a
      → Returns (f a) s
      → Returns (lift r >>= f) s
  Returns-lift r f s e h = subst (λ x. Returns (lift x >>= f) s) (sym e) h

  Returns-run :
      (m : Exec Database A) (f : A → Exec Database B) (s : Database) {a : A} {t : Database}
      → m s ≡ pure a t
      → Returns (f a) t
      → Returns (m >>= f) s
  Returns-run m f s e (b, (u, k)) = (b, (u, rw e k))

earlier-returns :
    (order : ℤ) (bid : String) (rows : List OutboxRow)
    → All IsFaithful rows
    → (es : List OutboxStatus) × (earlier_statuses order (keep (λ r. r.bundle_id == bid) rows)
        ≡ ok es)
unfolding earlier_statuses keep
earlier-returns order bid [] f = ([], refl)
earlier-returns order bid (r ∷ rows) f =
    let (es, e) = earlier-returns order bid rows f.1 in
    elim (Bool-cases (r.bundle_id == bid)) [
      | inl hit ↦ rw hit (_, then_ok _ f.0.readable (then_ok _ e refl))
      | inr miss ↦ rw miss (es, e)
    ]

-- A service whose authorizers answer about the stored bundles.
abbrev pub Answers : OutboxService → Database → Type 0
Answers svc db = All (λ b. (yes : Bool) × (is_authorized svc b.bundle_json ≡ ok yes)) db.bundles

claim_row-Returns :
    (svc : OutboxService) (row : OutboxRow) (b : BundleRow) (db : Database)
    → IsValid db
    → IsFaithful row
    → IsReadable b
    → (allowed : Bool) × (is_authorized svc b.bundle_json ≡ ok allowed)
    → Returns (claim_row svc (row, b)) db
unfolding claim_row mark_sending
claim_row-Returns svc row b db v f readable (allowed, answer) =
    let (es, e) = earlier-returns row.payload_json.order row.bundle_id db.outbox v.faithful in
    Returns-lift (bundle_from_dict b.bundle_json) _ db readable (
      Returns-lift (is_authorized svc b.bundle_json) _ db answer (
        Returns-if (not allowed) (pure []) _ db ([], (db, refl))
          (Returns-lift (create_part row.payload_json) _ db f.readable (
            Returns-lift
              (earlier_statuses row.payload_json.order
                (keep (λ r. r.bundle_id == row.bundle_id) db.outbox))
              _ db e
              (Returns-if (any (λ s. not (is_settled s)) es) (pure []) _ db ([], (db, refl))
                (_, (_, refl)))))))

claim_rows-Returns :
    (svc : OutboxService) (limit : ℤ) (rows : List (OutboxRow × BundleRow))
    (claimed : List OutboxPart) (db : Database)
    → IsValid db
    → All
        (λ x.
          IsFaithful x.0
          × (IsReadable x.1 × ((yes : Bool) × (is_authorized svc x.1.bundle_json ≡ ok yes))))
        rows
    → Returns (claim_rows svc limit rows claimed) db
unfolding claim_rows
claim_rows-Returns svc limit [] claimed db v h = (claimed, (db, refl))
claim_rows-Returns svc limit ((row, b) ∷ rows) claimed db v h =
    let (f, (readable, answer)) = h.0 in
    let (got, (mid, e)) = claim_row-Returns svc row b db v f readable answer in
    let step : Evolves db mid =
      subst (λ (x : Result (List OutboxPart) × Database). Evolves db x.1) e
        ((claim_row-Safe svc (row, b)).at db v) in
    Returns-if (leb_ℤ limit (pos (length claimed))) (pure claimed) _ db (claimed, (db, refl))
      (Returns-run (claim_row svc (row, b)) _ db e
        (claim_rows-Returns svc limit rows (claimed ++ got) mid step.valid h.1))

module _ (P : OutboxRow → Type 0) where
  of_bundle :
      (Q : BundleRow → Type 0) (b : BundleRow) (rows : List OutboxRow)
      → Q b
      → All P rows
      → All
          (λ (x : OutboxRow × BundleRow). P x.0 × Q x.1)
          (map
            (λ row. (row, b))
            (keep (λ row. row.bundle_id == b.bundle_id && is_ready row.status) rows))
  unfolding keep
  of_bundle Q b [] q h = tt
  of_bundle Q b (r ∷ rows) q h =
      elim (Bool-cases (r.bundle_id == b.bundle_id && is_ready r.status)) [
        | inl hit ↦ rw hit ((h.0, q), of_bundle Q b rows q h.1)
        | inr miss ↦ rw miss (of_bundle Q b rows q h.1)
      ]

  joined-All :
      (Q : BundleRow → Type 0) (rows : List OutboxRow) (bs : List BundleRow)
      → All P rows
      → All Q bs
      → All (λ (x : OutboxRow × BundleRow). P x.0 × Q x.1) (ready_joined rows bs)
  unfolding ready_joined
  joined-All Q rows [] h k = tt
  joined-All Q rows (b ∷ bs) h k =
      All-append (λ (x : OutboxRow × BundleRow). P x.0 × Q x.1) _ (ready_joined rows bs)
        (of_bundle Q b rows k.0 h) (joined-All Q rows bs h k.1)

-- On valid tables with readable bundles, at a time of 64 bits, claiming returns when the authorizers
-- answer about the bundles.
pub claim_ready-Returns :
    (svc : OutboxService) (now limit : ℤ) (db : Database)
    → IsValid db
    → All IsReadable db.bundles
    → Answers svc db
    → is_int64 now ≡ true
    → not (ltb_ℤ limit (pos 1)) ≡ true
    → Returns (claim_ready svc now limit) db
unfolding claim_ready
claim_ready-Returns svc now limit db v readable answers fits positive =
    let start = record db { outbox = map (sweep (is_due now) lapse) db.outbox } in
    let ev : Evolves db start = expired-Evolves now db v in
    let tail : Exec Database (List OutboxPart) = (do
      rows ← gets (λ (x : Database). ready_joined x.outbox x.bundles)
      claim_rows svc limit rows []) in
    let body : Exec Database (List OutboxPart) = expire_ready now >> tail in
    let total : Returns body db =
      Returns-run (expire_ready now) (λ _. tail) db (expire_ready-sweep now db v fits)
        (claim_rows-Returns svc limit (ready_joined start.outbox start.bundles) [] start ev.valid (
          joined-All IsFaithful
            (λ b. IsReadable b × ((yes : Bool) × (is_authorized svc b.bundle_json ≡ ok yes)))
            start.outbox start.bundles ev.valid.faithful
            (All-zip _ _ start.bundles readable answers))) in
    Returns-lift (require (not (ltb_ℤ limit (pos 1))) value_error) (λ _. transaction body) db
      {a = tt} (rw positive) (Returns-transaction body db total)
