-- ===== src/Runner/Cursor.antt =====
-- response/service/decision_runner.py: how far a pass moves the cursor.
use enterprise_netsec_iac.Common.{
  ℕ, zero, suc, String, Bool, true, false, Option, none, some, List, [], ◌∷◌, Result, ok, err, ◌≡◌,
  refl, ◌+◌, arith, length, ◌⊎◌, inl, inr, ◌<◌, lift, ◌>>=◌, ◌>>◌, pure, if◌then◌else◌, ◌≤◌, ap,
}
use enterprise_netsec_iac.Common.Keeps.{Keeps, Keeps-if, Keeps-option, keeps_rules}
use enterprise_netsec_iac.Value.{Value}
use enterprise_netsec_iac.Decision.Engine.{Decision}
use enterprise_netsec_iac.Runner.{
  RunnerMode, Runner, Surroundings, Document, record_outcome, set_cursor, write_decision,
  send_command,
}
use enterprise_netsec_iac.Runner.Handling.{request_response, act_on, handle, handle_hits}
use enterprise_netsec_iac.Runner.Kept.{
  finish-Keeps, settle_delivery-Keeps, note_decision-Keeps, handle-Keeps, write_decision-Keeps,
  send_command-Keeps,
}

-- The cursor after the first `n` of the hits, each with its sort key.
abbrev pub cursor_after : Option Value → ℕ → List (Value × Value) → Option Value
cursor_after c zero hits = c
cursor_after c (suc n) [] = c
cursor_after c (suc n) (hit ∷ hits) = cursor_after (some hit.1) n hits

-- The cursor is moved to a sort key.
abbrev pub moved_to : Value → Runner → Runner
moved_to sort r = record r { state = record r.state { cursor = some sort } }

-- What `handle` answers to a hit, if each one before it is handled in turn and the cursor is moved after it.
abbrev pub answer_at : Surroundings → ℕ → List (Value × Value) → Runner → ℕ → Option (Result Bool)
answer_at env now [] r n = none
answer_at env now ((doc, sort) ∷ hits) r zero = some (handle env doc now r).0
answer_at env now ((doc, sort) ∷ hits) r (suc n) =
    answer_at env now hits (moved_to sort (handle env doc now r).1) n

-- What a pass that finished `finished` of `total` anomalies reports, by the answer to the next one.
abbrev pub Reports : Result (ℕ × ℕ) → ℕ → ℕ → ℕ → Option (Result Bool) → Type 0
Reports (ok counts) processed finished total answer =
    (counts.0 ≡ processed + finished)
    × (((counts.1 ≡ 0) × (finished ≡ total)) ⊎ ((counts.1 ≡ 1) × (answer ≡ some (ok false))))
Reports (err e) processed finished total answer = answer ≡ some (err e)

pub record IsConsumed (env : Surroundings) (now : ℕ) (hits : List (Value × Value)) (before : Runner)
    (processed : ℕ) (result : Result (ℕ × ℕ)) (after : Runner) : Type 0 where
  pub finished : ℕ
  pub within : finished ≤ length hits
  pub handled : (n : ℕ) → n < finished → answer_at env now hits before n ≡ some (ok true)
  pub moved : after.state.cursor ≡ cursor_after before.state.cursor finished hits
  pub reported :
      Reports result processed finished (length hits) (answer_at env now hits before finished)

record HasCursor (cursor : Option Value) (r : Runner) : Type 0 where
  same : r.state.cursor ≡ cursor

module _ (env : Surroundings) {cursor : Option Value} where
  recorded :
      (anomaly_id outcome : String) (event_id : Option String)
      → Keeps (HasCursor cursor) (record_outcome anomaly_id outcome event_id)
  unfolding record_outcome
  recorded anomaly_id outcome event_id = record { at = λ r h. record { same = h.same } }

  wrote : (d : Document) → Keeps (HasCursor cursor) (write_decision d)
  wrote = write_decision-Keeps (λ r answers written h. record { same = h.same })

  sent : (command : Option Value) → Keeps (HasCursor cursor) (send_command command)
  sent = send_command-Keeps (λ r answers sent h. record { same = h.same })

  request_response-Keeps :
      (anomaly_id event_id : String) (d : Decision)
      → Keeps (HasCursor cursor) (request_response env anomaly_id event_id d)
  unfolding request_response
  request_response-Keeps anomaly_id event_id d =
      search (keeps_rules, wrote, sent, recorded, settle_delivery-Keeps env recorded) depth 12

  act_on-Keeps :
      (anomaly_id : String) (d : Decision) (mode : RunnerMode)
      → Keeps (HasCursor cursor) (act_on env anomaly_id d mode)
  unfolding act_on
  act_on-Keeps anomaly_id d mode =
      Keeps-option d.decision_event_id _ _
        (finish-Keeps env recorded anomaly_id "anomaly_only" none)
        (λ event_id.
          Keeps-if _ _ _ (λ _. request_response-Keeps anomaly_id event_id d)
            (λ _. note_decision-Keeps env recorded wrote anomaly_id event_id d))

  -- Handling an anomaly leaves the cursor where it is.
  handle-HasCursor : (doc : Value) (now : ℕ) → Keeps (HasCursor cursor) (handle env doc now)
  handle-HasCursor = handle-Keeps env recorded (λ id d r h. (act_on-Keeps id d r.mode).at r h)

-- One anomaly more was finished before.
Reports-suc :
    (result : Result (ℕ × ℕ)) (processed finished total : ℕ) (answer : Option (Result Bool))
    → Reports result (processed + 1) finished total answer
    → Reports result processed (suc finished) (suc total) answer
Reports-suc (ok counts) processed finished total answer (counted, inl (none_left, all)) =
    (omega (arith, counted), inl (none_left, omega (arith, all)))
Reports-suc (ok counts) processed finished total answer (counted, inr (one_left, later)) =
    (omega (arith, counted), inr (one_left, later))
Reports-suc (err e) processed finished total answer raised = raised

none_below : (n : ℕ) → n < 0 → ⊥
none_below n h = omega (arith, h)

-- After a pass, also one that raises, the cursor is the sort key of the last anomaly that the pass finished,
-- or where it was if it finished none. The finished anomalies are the first ones, and handling each of them
-- in turn answered `True`. A pass that returns counts them, and reports none pending if they are all, and
-- else one, whose handling answered `False`; a pass that raises stopped at an anomaly whose handling raised.
pub handle_hits-IsConsumed :
    (env : Surroundings) (hits : List (Value × Value)) (processed now : ℕ) (r : Runner)
    → IsConsumed env now hits r processed
        (handle_hits env hits processed now r).0
        (handle_hits env hits processed now r).1
unfolding handle_hits set_cursor
handle_hits-IsConsumed env [] processed now r = record {
  finished = 0;
  within = omega arith;
  handled = λ n h. elim (none_below n h) [ ];
  moved = refl;
  reported = (omega arith, inl (refl, refl));
}
handle_hits-IsConsumed env ((doc, sort) ∷ hits) processed now r =
    after_answer (handle env doc now r).0 refl (handle_hits-IsConsumed env hits (processed + 1) now)
  where
    r1 : Runner
    r1 = (handle env doc now r).1

    same : r1.state.cursor ≡ r.state.cursor
    same = ((handle-HasCursor env doc now).at r (record { same = refl })).same

    rest : Result Bool → Result (ℕ × ℕ) × Runner
    rest result =
        ◌>>=◌ (lift result)
          (λ finished.
            if finished
            then set_cursor sort >> handle_hits env hits (processed + 1) now
            else pure (processed, 1))
          r1

    first_too :
        (finished : ℕ)
        → (handle env doc now r).0 ≡ ok true
        → ((n : ℕ) → n < finished → answer_at env now hits (moved_to sort r1) n ≡ some (ok true))
        → (n : ℕ) → n < suc finished
        → answer_at env now ((doc, sort) ∷ hits) r n ≡ some (ok true)
    first_too finished e ih zero h = ap some e
    first_too finished e ih (suc n) h = ih n (omega (arith, h))

    after_answer :
        (result : Result Bool)
        → (handle env doc now r).0 ≡ result
        → ((r2 : Runner)
            → IsConsumed env now hits r2
                (processed + 1)
                (handle_hits env hits (processed + 1) now r2).0
                (handle_hits env hits (processed + 1) now r2).1)
        → IsConsumed env now ((doc, sort) ∷ hits) r processed (rest result).0 (rest result).1
    after_answer (ok true) e ih =
        let next = ih (moved_to sort r1) in
        record {
          finished = suc next.finished;
          within = omega (arith, next.within);
          handled = first_too next.finished e next.handled;
          moved = next.moved;
          reported =
              Reports-suc (handle_hits env hits (processed + 1) now (moved_to sort r1)).0 processed
                next.finished (length hits)
                (answer_at env now hits (moved_to sort r1) next.finished) next.reported;
        }
    after_answer (ok false) e ih = record {
      finished = 0;
      within = omega arith;
      handled = λ n h. elim (none_below n h) [ ];
      moved = same;
      reported = (omega arith, inr (refl, ap some e));
    }
    after_answer (err x) e ih = record {
      finished = 0;
      within = omega arith;
      handled = λ n h. elim (none_below n h) [ ];
      moved = same;
      reported = ap some e;
    }
