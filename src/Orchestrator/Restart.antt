-- ===== src/Orchestrator/Restart.antt =====
-- response/orchestrator/engine.py, the constructor over a store: the records come back from the
-- snapshots, each checked against its signature and its audit history. `Input` is what a process can
-- meet: a call of an operation, or its end and a new start on the same store. A process that dies inside
-- an operation is one whose next commit is refused or unanswered, and which is then started again.
use enterprise_netsec_iac.Common.{
  ℕ, String, Bool, true, false, ◌&&◌, List, [], ◌∷◌, ◌==◌, str_eq, all, Result, ok, err, error,
  command_rejected, assertion_error,
}
use enterprise_netsec_iac.Common.Pure.{◌>>=◌, ◌>>◌, require}
use enterprise_netsec_iac.Value.{Value}
use enterprise_netsec_iac.Platform.{to_millis}
use enterprise_netsec_iac.Audit.{Cause, AuditEvent, same_action, same_target}
use enterprise_netsec_iac.Store.{ResponseRecord, Journal, events, load}
use enterprise_netsec_iac.Orchestrator.Machine.{
  Disk, Reply, Orchestrator, Environment, response_id_of,
}
use enterprise_netsec_iac.Orchestrator.Operations.{submit}
use enterprise_netsec_iac.Orchestrator.Enforcement.{
  apply, verify, expire_due, rollback, recover_pending,
}

abbrev pub same_command : ResponseRecord → AuditEvent → Bool
same_command r e =
    same_target e.target r.command.target
    && (same_action e.action r.command.action
        && (str_eq e.idempotency_key r.command.idempotency_key
            && e.expires_at == to_millis r.expires_at))

pub data Input : Type 0 where
  submit_input : Value → ℕ → Input
  apply_input verify_input : String → ℕ → Input
  rollback_input : String → Cause → ℕ → Input
  expire_input recover_input : ℕ → Input
  restart_input : Input

module _ (env : Environment) where
  unfoldable pub check_snapshot : ResponseRecord → List AuditEvent → Result (Unit {0})
  check_snapshot r [] = error assertion_error "a loaded response has an event"
  check_snapshot r (first ∷ later) = do
    require (str_eq r.response_id (response_id_of env r.command.idempotency_key)) command_rejected
        "checkpoint response identity is invalid"
    env.authenticate r.command.raw first.timestamp
    require (all (same_command r) (first ∷ later)) command_rejected
        "checkpoint audit differs from signed command"

  unfoldable pub check_snapshots : List ResponseRecord → Journal → Result (Unit {0})
  check_snapshots [] j = ok tt
  check_snapshots (r ∷ rs) j = do check_snapshot r (events r.response_id j); check_snapshots rs j

  -- The constructor; an exception leaves no orchestrator.
  unfoldable pub start : Journal → Result (List ResponseRecord)
  start j = do records ← load j; check_snapshots records j; ok records

  -- A new process on the journal of the old one; one that cannot start serves nothing.
  unfoldable pub restart : Orchestrator → Orchestrator
  restart s = elim (start s.journal) [
    | ok records ↦ record s { records = records; dedup = []; storage_failed = false }
    | err e ↦ record s { records = []; dedup = []; storage_failed = true }
  ]

  unfoldable pub serve_one : Input → Orchestrator → Orchestrator
  serve_one (submit_input c now) s = (submit env c now s).1
  serve_one (apply_input i now) s = (apply env i now s).1
  serve_one (verify_input i now) s = (verify env i now s).1
  serve_one (rollback_input i cause now) s = (rollback env i cause now s).1
  serve_one (expire_input now) s = (expire_due env now s).1
  serve_one (recover_input now) s = (recover_pending env now s).1
  serve_one restart_input s = restart s

  unfoldable pub serve : List Input → Orchestrator → Orchestrator
  serve [] s = s
  serve (x ∷ xs) s = serve xs (serve_one x s)

-- An orchestrator on a new store, with the answers that its adapters and its disk will give.
abbrev pub fresh : List Reply → List Disk → Orchestrator
fresh replies disk = record {
  records = [];
  dedup = [];
  storage_failed = false;
  journal = record { records = []; audit = []; apply_intents = []; admissions = []; exported = [] };
  calls = [];
  replies = replies;
  disk = disk;
}
