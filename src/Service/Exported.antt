-- ===== src/Service/Exported.antt =====
-- What an export delivers.
use enterprise_netsec_iac.Common.{
  zero, suc, ap, ◌≤◌, ℕ, ◌≡◌, ◌+◌, ◌≤◌, suc, sym, ◌∙◌, List, [], ◌∷◌, ◌++◌, ok, Result, arith, some,
  none, append_assoc, append-nil, length, error, runtime_error, ap, refl,
}
use enterprise_netsec_iac.Common.Pure.{ok-eq-ok}
use enterprise_netsec_iac.Audit.{AuditEvent}
use enterprise_netsec_iac.Store.{unexported_events}
use enterprise_netsec_iac.Service.{
  Service, Delivery, created, broken, undelivered, ExportReport, export_each, mark_document,
  first_events, next_answer, later_answers, export,
}

-- From a count `n`, `k` more documents were delivered, the first ones of the events.
record IsPrefixDelivered (es : List AuditEvent) (n : ℕ) (s : Service) (r : ExportReport)
    (t : Service) : Type 0 where
  more : ℕ
  counted : r.delivered ≡ n + more
  in_order : t.documents ≡ s.documents ++ first_events more es
  enough : more ≤ length es

export_each-IsPrefixDelivered :
    (es : List AuditEvent) (n : ℕ) (s : Service) {r : ExportReport}
    → (export_each es n s).0 ≡ ok r
    → IsPrefixDelivered es n s r (export_each es n s).1
unfolding export_each mark_document
export_each-IsPrefixDelivered [] n s {r} h =
    let same : record { delivered = n; blocked = none } ≡ r = ok-eq-ok h in
    rw (← same) (record {
      more = 0;
      counted = omega arith;
      in_order = sym (append-nil s.documents);
      enough = omega arith;
    })
export_each-IsPrefixDelivered (e ∷ es) n s {r} h =
    answered (next_answer s.answers) (λ g. export_each-IsPrefixDelivered es (n + 1) _ g) h
  where
    after : Service
    after = record s { answers = later_answers s.answers }

    step : Delivery → Result ExportReport × Service
    step created = export_each es (n + 1) (mark_document e after)
    step (undelivered code) = (ok (record { delivered = n; blocked = some code }), after)
    step broken = (error runtime_error "unexpected response", after)

    answered :
        (d : Delivery)
        → ((export_each es (n + 1) (mark_document e after)).0 ≡ ok r
            → IsPrefixDelivered es
                (n + 1)
                (mark_document e after)
                r
                (export_each es (n + 1) (mark_document e after)).1)
        → (step d).0 ≡ ok r
        → IsPrefixDelivered (e ∷ es) n s r (step d).1
    answered created ih g =
        let rest = ih g in
        record {
          more = suc rest.more;
          counted = omega (arith, rest.counted);
          in_order = rest.in_order ∙ append_assoc s.documents (e ∷ []) (first_events rest.more es);
          enough = omega (arith, rest.enough);
        }
    answered (undelivered code) ih g =
        let same : record { delivered = n; blocked = some code } ≡ r = ok-eq-ok g in
        rw (← same) (record {
          more = 0;
          counted = omega arith;
          in_order = sym (append-nil s.documents);
          enough = omega arith;
        })
    answered broken ih g = cc

length-first_events : (n : ℕ) (es : List AuditEvent) → length (first_events n es) ≤ n
length-first_events zero es = omega arith
length-first_events (suc n) [] = omega arith
length-first_events (suc n) (e ∷ es) = omega (arith, length-first_events n es)

first_events-first_events :
    (k n : ℕ) (es : List AuditEvent)
    → k ≤ n
    → first_events k (first_events n es) ≡ first_events k es
first_events-first_events zero n es h = refl
first_events-first_events (suc k) zero es h = elim (zero_not_above k h) [ ]
  where
    zero_not_above : (k : ℕ) → suc k ≤ 0 → ⊥
    zero_not_above k h = omega (arith, h)
first_events-first_events (suc k) (suc n) [] h = refl
first_events-first_events (suc k) (suc n) (e ∷ es) h =
    ap (λ rest. e ∷ rest) (first_events-first_events k n es (omega (arith, h)))

-- An export that returns has added to the documents the first unexported events, as many as it reports and
-- at most its limit, in the order of the trail: none is passed over.
pub export_delivers :
    (limit : ℕ) (s : Service) {r : ExportReport}
    → (export limit s).0 ≡ ok r
    → ((export limit s).1.documents
        ≡ s.documents ++ first_events r.delivered (unexported_events s.orchestrator.journal))
      × (r.delivered ≤ limit)
unfolding export
export_delivers limit s {r} h =
    let events = unexported_events s.orchestrator.journal in
    let d = export_each-IsPrefixDelivered (first_events limit events) 0 s h in
    let same : r.delivered ≡ d.more = omega (arith, d.counted) in
    let few : d.more ≤ limit = omega (arith, d.enough, length-first_events limit events) in
    (
      rw same (
          d.in_order
          ∙ ap (λ es. s.documents ++ es) (first_events-first_events d.more limit events few)),
      omega (arith, same, few),
    )
