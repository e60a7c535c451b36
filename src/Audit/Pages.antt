-- ===== src/Audit/Pages.antt =====
-- The pages of the audit trail together.
use mathlib.Core.Path.{ap₂}
use mathlib.Core.List.{map-append}
use mathlib.Core.List.{Memᴰ}
use multi_tenant_saas.Base.{
  ℕ, zero, suc, ◌-◌, ◌*◌, ◌≤◌, ◌≡◌, refl, sym, ap, ◌∙◌, fun_ext, Bool, true, false, List, [], ◌∷◌,
  ◌++◌, ◌==◌, ltb, arith, filter, take, drop, length, map, any, Unique,
}
use multi_tenant_saas.Models.{Db, Uuid, Timestamp, AuditLog}
use multi_tenant_saas.Pages.Offset.{slices, slices_all}
use multi_tenant_saas.Audit.Wanted.{
  wanted_record, wanted_record-build_criteria, shown_record, shown_record-audit_log_response,
}
use multi_tenant_saas.Audit.{
  AuditLogFilterParams, AuditLogResponse, TimestampOrder, NewestFirst, build_criteria,
  audit_log_response, audit_page, list_audit_logs,
}

none_newer :
    (t : Timestamp) (x : AuditLog) (logs : List AuditLog)
    → NewestFirst (x ∷ logs)
    → x.timestamp ≤ t
    → length (filter (λ y. ltb t y.timestamp) (x ∷ logs)) ≡ 0
none_newer t x [] h le = ground arith
none_newer t x (y ∷ logs) (yx, h) le = ground (arith, none_newer t y logs h (omega arith))

tail_NewestFirst : (x : AuditLog) (logs : List AuditLog) → NewestFirst (x ∷ logs) → NewestFirst logs
tail_NewestFirst x [] h = tt
tail_NewestFirst x (y ∷ logs) h = h.1

-- Two listings of the same records, the newest first, are one if records of one time are equal.
one_listing :
    (a b : List AuditLog)
    → NewestFirst a
    → NewestFirst b
    → ((p : AuditLog → Bool) → length (filter p a) ≡ length (filter p b))
    → ((x y : AuditLog) → Memᴰ x a → Memᴰ y b → x.timestamp ≡ y.timestamp → x ≡ y)
    → a ≡ b
one_listing [] [] ha hb counts same = refl
one_listing [] (y ∷ b) ha hb counts same = let c = counts (λ _. true) in absurd (ground arith)
one_listing (x ∷ a) [] ha hb counts same = let c = counts (λ _. true) in absurd (ground arith)
one_listing (x ∷ a) (y ∷ b) ha hb counts same =
    let x_first = none_newer x.timestamp x a ha (omega arith) in
    let y_first = none_newer y.timestamp y b hb (omega arith) in
    let not_after = counts (λ z. ltb x.timestamp z.timestamp) in
    let not_before = counts (λ z. ltb y.timestamp z.timestamp) in
    let one_time : x.timestamp ≡ y.timestamp = ground arith in
    let heads = same x y (Memᴰ.head refl) (Memᴰ.head refl) one_time in
    ap₂ ◌∷◌ heads (
      one_listing a b (tail_NewestFirst x a ha) (tail_NewestFirst y b hb)
        (λ p. let e = ap p heads in let c = counts p in ground arith)
        (λ u v m n. same u v (Memᴰ.tail m) (Memᴰ.tail n)))

not_among :
    (x y : AuditLog) (logs : List AuditLog)
    → any (λ z. z.timestamp == x.timestamp) logs ≡ false
    → Memᴰ y logs
    → (y.timestamp == x.timestamp) ≡ false
not_among x y [] h m = elim m [ ]
not_among x y (z ∷ logs) h (Memᴰ.head e) = rw e (ground arith)
not_among x y (z ∷ logs) h (Memᴰ.tail m) = not_among x y logs (ground arith) m

Unique-same :
    (logs : List AuditLog)
    → Unique (λ (x : AuditLog). x.timestamp) logs
    → (x y : AuditLog) → Memᴰ x logs
    → Memᴰ y logs
    → x.timestamp ≡ y.timestamp
    → x ≡ y
Unique-same [] u x y m n s = elim m [ ]
Unique-same (z ∷ logs) (apart, u) x y (Memᴰ.head e) (Memᴰ.head f) s = e ∙ sym f
Unique-same (z ∷ logs) (apart, u) x y (Memᴰ.head e) (Memᴰ.tail n) s =
    let other = not_among z y logs apart n in
    let at = ap (λ (r : AuditLog). r.timestamp) e in absurd (ground arith)
Unique-same (z ∷ logs) (apart, u) x y (Memᴰ.tail m) (Memᴰ.head f) s =
    let other = not_among z x logs apart m in
    let at = ap (λ (r : AuditLog). r.timestamp) f in absurd (ground arith)
Unique-same (z ∷ logs) (apart, u) x y (Memᴰ.tail m) (Memᴰ.tail n) s = Unique-same logs u x y m n s

length-filter-true : (logs : List AuditLog) → length (filter (λ _. true) logs) ≡ length logs
length-filter-true [] = refl
length-filter-true (x ∷ logs) = ap suc (length-filter-true logs)

module _ (orders : ℕ → TimestampOrder) (organization_id : Uuid) (filters : AuditLogFilterParams)
    (k : ℕ) (db : Db) where
  -- The items of the pages from the first to the `n`th; each query has an order of its own.
  abbrev pub joined_pages : ℕ → List AuditLogResponse
  joined_pages zero = []
  joined_pages (suc n) =
      joined_pages n ++ (audit_page (orders n) organization_id filters (suc n) (suc k) db).items

  abbrev pub total_pages : ℕ
  total_pages = (audit_page (orders 0) organization_id filters 1 (suc k) db).total_pages

  abbrev selected : List AuditLog
  selected = filter (build_criteria organization_id filters) db.audit_logs

  abbrev listing : ℕ → List AuditLog
  listing n = (orders n).newest_first selected

  module _ (apart : Unique (λ (x : AuditLog). x.timestamp) selected) where
    listing-first : (n : ℕ) → listing n ≡ listing 0
    listing-first n =
        one_listing (listing n) (listing 0) ((orders n).newest_first-NewestFirst selected)
          ((orders 0).newest_first-NewestFirst selected)
          (λ p.
            (orders n).length-filter-newest_first p selected
            ∙ sym ((orders 0).length-filter-newest_first p selected))
          (λ x y m l.
            Unique-same selected apart x y ((orders n).newest_first-Memᴰ x selected m)
              ((orders 0).newest_first-Memᴰ y selected l))

    joined_pages_lem :
        (n : ℕ) → joined_pages n ≡ map (audit_log_response db.users) (slices k (listing 0) n)
    unfolding audit_page list_audit_logs
    joined_pages_lem zero = refl
    joined_pages_lem (suc n) =
        ap
          (λ (l : List AuditLog).
            joined_pages n
            ++ map (audit_log_response db.users) (take (suc k) (drop ((suc n - 1) * suc k) l)))
          (listing-first n)
        ∙ (ap
              (λ (l : List AuditLogResponse).
                l
                ++ map (audit_log_response db.users)
                    (take (suc k) (drop ((suc n - 1) * suc k) (listing 0))))
              (joined_pages_lem n)
            ∙ sym (
                map-append (audit_log_response db.users) (slices k (listing 0) n)
                  (take (suc k) (drop ((suc n - 1) * suc k) (listing 0)))))

  length-selected : length (listing 0) ≡ length selected
  length-selected =
      sym (length-filter-true (listing 0))
      ∙ ((orders 0).length-filter-newest_first (λ _. true) selected ∙ length-filter-true selected)

  selected_lem : selected ≡ filter (wanted_record organization_id filters) db.audit_logs
  selected_lem =
      ap (λ (p : AuditLog → Bool). filter p db.audit_logs)
        (fun_ext (wanted_record-build_criteria organization_id filters))

  -- If no two of the tenant's records that meet the filters have one time, and a page holds one
  -- record at least, the pages from the first to the last that the answer announces hold together,
  -- the newest first, exactly the tenant's records that meet each filter that is given, each once,
  -- with the name and the address of its actor, however each query sorts the records of one time.
  pub query_audit_logs_cover :
      Unique
        (λ (x : AuditLog). x.timestamp)
        (filter (wanted_record organization_id filters) db.audit_logs)
      → (listing : List AuditLog) × (joined_pages total_pages ≡ map (shown_record db.users) listing)
        × NewestFirst listing
        × ((p : AuditLog → Bool)
            → length (filter p listing)
              ≡ length (filter p (filter (wanted_record organization_id filters) db.audit_logs)))
  unfolding audit_page list_audit_logs
  query_audit_logs_cover apart =
      let apart' : Unique (λ (x : AuditLog). x.timestamp) selected = rw selected_lem apart in
      (
        listing 0,
        joined_pages_lem apart' total_pages
            ∙ (ap (map (audit_log_response db.users))
                  (slices_all k (listing 0) (length selected) length-selected)
                ∙ ap (λ (show : AuditLog → AuditLogResponse). map show (listing 0))
                    (fun_ext (shown_record-audit_log_response db.users))),
        (orders 0).newest_first-NewestFirst selected,
        λ p.
            (orders 0).length-filter-newest_first p selected
            ∙ ap (λ (l : List AuditLog). length (filter p l)) selected_lem,
      )
