-- ===== src/Audit/Tests.antt =====
-- The pages of three records, two of them of the tenant, one record a page.
use mathlib.Core.List.{Memᴰ}
use multi_tenant_saas.Base.{
  ℕ, ◌≡◌, refl, Bool, none, List, [], ◌∷◌, arith, inl, inr, leb, if◌then◌else◌, filter, length, map,
  Bool-cases,
}
use multi_tenant_saas.Models.{Db, AuditLog, update}
use multi_tenant_saas.Samples.{sample_db}
use multi_tenant_saas.Audit.{AuditLogFilterParams, TimestampOrder, NewestFirst}
use multi_tenant_saas.Audit.Wanted.{wanted_record, shown_record}
use multi_tenant_saas.Audit.Pages.{joined_pages, total_pages, query_audit_logs_cover}

abbrev insert_log : AuditLog → List AuditLog → List AuditLog
insert_log x [] = x ∷ []
insert_log x (y ∷ logs) =
    let rest = insert_log x logs in if leb y.timestamp x.timestamp then x ∷ y ∷ logs else y ∷ rest

abbrev by_time : List AuditLog → List AuditLog
by_time [] = []
by_time (x ∷ logs) = insert_log x (by_time logs)

insert_log-NewestFirst :
    (x : AuditLog) (logs : List AuditLog) → NewestFirst logs → NewestFirst (insert_log x logs)
insert_log-NewestFirst x [] h = tt
insert_log-NewestFirst x (y ∷ []) h = elim (Bool-cases (leb y.timestamp x.timestamp)) [
  | inl e ↦ rw e (ground arith, tt)
  | inr e ↦ rw e (ground arith, tt)
]
insert_log-NewestFirst x (y ∷ z ∷ logs) (yz, h) = elim (Bool-cases (leb y.timestamp x.timestamp)) [
  | inl e ↦ rw e (ground arith, (yz, h))
  | inr e ↦ elim (Bool-cases (leb z.timestamp x.timestamp)) [
    | inl f ↦ rw (e, f) (ground arith, (ground arith, h))
    | inr f ↦
        let later = insert_log-NewestFirst x (z ∷ logs) h in
        let later' : NewestFirst (z ∷ insert_log x logs) = rw f at later in rw (e, f) (yz, later')
  ]
]

by_time-NewestFirst : (logs : List AuditLog) → NewestFirst (by_time logs)
by_time-NewestFirst [] = tt
by_time-NewestFirst (x ∷ logs) = insert_log-NewestFirst x (by_time logs) (by_time-NewestFirst logs)

deeper : (y x z : AuditLog) (logs : List AuditLog) → Memᴰ y (x ∷ logs) → Memᴰ y (x ∷ z ∷ logs)
deeper y x z logs (Memᴰ.head same) = Memᴰ.head same
deeper y x z logs (Memᴰ.tail there) = Memᴰ.tail (Memᴰ.tail there)

Memᴰ-insert_log :
    (y x : AuditLog) (logs : List AuditLog) → Memᴰ y (insert_log x logs) → Memᴰ y (x ∷ logs)
Memᴰ-insert_log y x [] m = m
Memᴰ-insert_log y x (z ∷ logs) m = elim (Bool-cases (leb z.timestamp x.timestamp)) [
  | inl e ↦ let m' : Memᴰ y (x ∷ z ∷ logs) = rw e at m in m'
  | inr e ↦
      let m' : Memᴰ y (z ∷ insert_log x logs) = rw e at m in
      elim m' [
        | Memᴰ.head same ↦ Memᴰ.tail (Memᴰ.head same)
        | Memᴰ.tail there ↦ deeper y x z logs (Memᴰ-insert_log y x logs there)
      ]
]

Memᴰ-by_time : (y : AuditLog) (logs : List AuditLog) → Memᴰ y (by_time logs) → Memᴰ y logs
Memᴰ-by_time y [] m = m
Memᴰ-by_time y (x ∷ logs) m = elim (Memᴰ-insert_log y x (by_time logs) m) [
  | Memᴰ.head same ↦ Memᴰ.head same
  | Memᴰ.tail there ↦ Memᴰ.tail (Memᴰ-by_time y logs there)
]

length-filter-insert_log :
    (p : AuditLog → Bool) (x : AuditLog) (logs : List AuditLog)
    → length (filter p (insert_log x logs)) ≡ length (filter p (x ∷ logs))
length-filter-insert_log p x [] = refl
length-filter-insert_log p x (y ∷ logs) = ground (arith, length-filter-insert_log p x logs)

length-filter-by_time :
    (p : AuditLog → Bool) (logs : List AuditLog)
    → length (filter p (by_time logs)) ≡ length (filter p logs)
length-filter-by_time p [] = refl
length-filter-by_time p (x ∷ logs) =
    ground (arith, length-filter-insert_log p x (by_time logs), length-filter-by_time p logs)

abbrev sorted_order : TimestampOrder
sorted_order = record {
  newest_first = by_time;
  newest_first-NewestFirst = by_time-NewestFirst;
  newest_first-Memᴰ = Memᴰ-by_time;
  length-filter-newest_first = length-filter-by_time;
}

abbrev log_at : ℕ → ℕ → ℕ → AuditLog
log_at id organization_id timestamp = record {
  id = id;
  organization_id = organization_id;
  actor_id = none;
  entity_type = "Task";
  entity_id = 41;
  action = update;
  before_state = none;
  after_state = none;
  ip_address = none;
  user_agent = none;
  timestamp = timestamp;
}

abbrev audited : Db
audited = record sample_db {
  audit_logs = log_at 61 11 100 ∷ log_at 62 12 110 ∷ log_at 63 11 120 ∷ [];
}

abbrev no_filters : AuditLogFilterParams
no_filters = record {
  entity_type = none;
  entity_id = none;
  actor_id = none;
  action = none;
  start_date = none;
  end_date = none;
}

query_audit_logs_cover_example :
    (listing : List AuditLog) × (joined_pages
        (λ _. sorted_order)
        11
        no_filters
        0
        audited
        (total_pages (λ _. sorted_order) 11 no_filters 0 audited)
      ≡ map (shown_record audited.users) listing)
    × NewestFirst listing
    × ((p : AuditLog → Bool)
        → length (filter p listing)
          ≡ length (filter p (filter (wanted_record 11 no_filters) audited.audit_logs)))
query_audit_logs_cover_example =
    query_audit_logs_cover (λ _. sorted_order) 11 no_filters 0 audited (refl, (refl, tt))
