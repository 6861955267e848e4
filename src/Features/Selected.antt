-- ===== src/Features/Selected.antt =====
-- Which events of the input a window's selection has.
use Prim.Native.String.{compare}
use Prim.Native.Nat.{Ordering}
use enterprise_netsec_iac.Common.{
  value_error, ℕ, ◌≡◌, refl, String, Bool, true, false, List, [], ◌∷◌, arith, All, ok, map,
  Bool-cases, inl, inr, leb, ltb, ◌&&◌, str_eq, ◌⊎◌,
}
use enterprise_netsec_iac.Common.Pure.{>>=-eq-ok, ok-eq-ok, require, require-eq-ok}
use enterprise_netsec_iac.Value.{Value}
use enterprise_netsec_iac.Platform.{Platform}
use enterprise_netsec_iac.Features.Events.{
  Entry, event_id, event_timestamp, is_normalised, keep_event, select_event, select_events,
  put_entry, find_entry, insert_entry, sort_entries, validate_and_select, same_fingerprint,
}

both_true : (a b : Bool) → (a && b) ≡ true → (a ≡ true) × (b ≡ true)
both_true true true h = (refl, refl)
both_true true false h = cc
both_true false b h = cc

order_cases :
    (a b : String)
    → (compare a b ≡ Ordering.gt) ⊎ ((compare a b ≡ Ordering.lt) ⊎ (compare a b ≡ Ordering.eq))
order_cases a b = which (compare a b)
  where
    which : (o : Ordering) → (o ≡ Ordering.gt) ⊎ ((o ≡ Ordering.lt) ⊎ (o ≡ Ordering.eq))
    which Ordering.gt = inl refl
    which Ordering.lt = inr (inl refl)
    which Ordering.eq = inr (inr refl)

module _ (lib : Platform) (start stop : ℕ) where
  -- A normalised event with an identifier, at an instant of the half-open window.
  pub record IsSelected (event : Value) : Type 0 where
    pub normalised : is_normalised lib start stop event ≡ true
    pub instant : ℕ
    pub timed : event_timestamp lib event ≡ ok instant
    pub from_start : leb start instant ≡ true
    pub before_end : ltb instant stop ≡ true
    pub identifier : String
    pub identified : event_id event ≡ ok identifier

  Selected : Entry → Type 0
  Selected e = IsSelected e.event

  put_entry-Selected :
      (e : Entry) (es : List Entry) → Selected e → All Selected es → All Selected (put_entry e es)
  unfolding put_entry Selected
  put_entry-Selected e [] h hs = (h, tt)
  put_entry-Selected e (f ∷ fs) h (g, gs) = elim (Bool-cases (str_eq f.id e.id)) [
    | inl same ↦ rw same (h, gs)
    | inr other ↦ rw other (g, put_entry-Selected e fs h gs)
  ]

  select_event-Selected :
      (event : Value) (es : List Entry) {out : List Entry}
      → select_event lib start stop event es ≡ ok out
      → All Selected es
      → All Selected out
  unfolding select_event keep_event Selected
  select_event-Selected event es {out} h hs =
      let (_, checked, h1) =
        >>=-eq-ok
          (require (is_normalised lib start stop event) value_error
            "feature input must be normalized soc-event-v1 telemetry")
          _ h in
      let (t, timed, h2) = >>=-eq-ok (event_timestamp lib event) _ h1 in
      elim (Bool-cases (leb start t && ltb t stop)) [
        | inr outside ↦ let same : es ≡ out = ground (arith, h2, outside) in rw (← same) hs
        | inl inside ↦
            let kept : keep_event lib start stop event es ≡ ok out = ground (arith, h2, inside) in
            let (i, identified, h3) = >>=-eq-ok (event_id event) _ kept in
            let (_, _, h4) =
              >>=-eq-ok
                (require (same_fingerprint (find_entry i es) (lib.canonical_json event)) value_error
                  "event.id resolves to conflicting normalized telemetry")
                _ h3 in
            let same : put_entry
                  (record { id = i; fingerprint = lib.canonical_json event; event = event }) es
                ≡ out =
              ok-eq-ok h4 in
            rw (← same) (
              put_entry-Selected _ es
                (record {
                  normalised = require-eq-ok _ _ _ checked;
                  instant = t;
                  timed = timed;
                  from_start = (both_true _ _ inside).0;
                  before_end = (both_true _ _ inside).1;
                  identifier = i;
                  identified = identified;
                })
                hs)
      ]

  select_events-Selected :
      (events : List Value) (es : List Entry) {out : List Entry}
      → select_events lib start stop events es ≡ ok out
      → All Selected es
      → All Selected out
  unfolding select_events
  select_events-Selected [] es {out} h hs = let same : es ≡ out = ok-eq-ok h in rw (← same) hs
  select_events-Selected (event ∷ events) es h hs =
      let (next, first, h1) = >>=-eq-ok (select_event lib start stop event es) _ h in
      select_events-Selected events next h1 (select_event-Selected event es first hs)

  insert_entry-Selected :
      (e : Entry) (es : List Entry)
      → Selected e
      → All Selected es
      → All Selected (insert_entry e es)
  unfolding insert_entry
  insert_entry-Selected e [] h hs = (h, tt)
  insert_entry-Selected e (f ∷ fs) h (g, gs) = elim (order_cases e.id f.id) [
    | inl after ↦ rw (after, All) (g, insert_entry-Selected e fs h gs)
    | inr (inl first) ↦ rw (first, All) (h, (g, gs))
    | inr (inr same) ↦ rw (same, All) (h, (g, gs))
  ]

  sort_entries-Selected : (es : List Entry) → All Selected es → All Selected (sort_entries es)
  unfolding sort_entries
  sort_entries-Selected [] h = tt
  sort_entries-Selected (e ∷ es) (h, hs) = insert_entry-Selected e _ h (sort_entries-Selected es hs)

  events_of : (es : List Entry) → All Selected es → All IsSelected (map (λ e. e.event) es)
  unfolding Selected
  events_of [] h = tt
  events_of (e ∷ es) (h, hs) = (h, events_of es hs)

  -- Every event of a selection is a normalised event with an identifier whose time is in the half-open
  -- window.
  pub validate_and_select-IsSelected :
      (events : List Value) {selected : List Value}
      → validate_and_select lib start stop events ≡ ok selected
      → All IsSelected selected
  unfolding validate_and_select
  validate_and_select-IsSelected events {selected} h =
      let (entries, found, h1) = >>=-eq-ok (select_events lib start stop events []) _ h in
      let same : map (λ e. e.event) (sort_entries entries) ≡ selected = ok-eq-ok h1 in
      rw (← same)
        (events_of _ (sort_entries-Selected entries (select_events-Selected events [] found tt)))
