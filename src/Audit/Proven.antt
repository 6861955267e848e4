-- ===== src/Audit/Proven.antt =====
-- Trails that were checked event by event, and what their last state claims.
use enterprise_netsec_iac.Common.{◌≡◌, ◌⊎◌, inl, inr, some, List, [], ◌∷◌, ◌++◌, ok, refl, arith}
use enterprise_netsec_iac.Audit.{State, AuditEvent, last_state, validate_transition}
use enterprise_netsec_iac.Audit.Lifecycle.{
  IsHistory, IsProven, validate_transition-IsHistory, IsHistory-IsProven,
}

-- The events of a response of which each one passed the check after those before it.
pub data IsChecked : List AuditEvent → Type 0 where
  nothing_yet : IsChecked []
  recorded :
      (h h' : List AuditEvent) (e : AuditEvent)
      → IsChecked h
      → validate_transition e h ≡ ok tt
      → h' ≡ h ++ e ∷ []
      → IsChecked h'

IsChecked-IsHistory : {h : List AuditEvent} → IsChecked h → (h ≡ []) ⊎ IsHistory h
IsChecked-IsHistory nothing_yet = inl refl
IsChecked-IsHistory (recorded h h' e past passed whole) =
    inr (rw whole (validate_transition-IsHistory e h (IsChecked-IsHistory past) passed))

-- If each event of a response passed the check after those before it, then a last state APPLIED means that
-- an applied event is there, VERIFIED an applied and a verified one, and EXPIRED an applied, a verified and
-- an expired one.
pub IsChecked-IsProven :
    {h : List AuditEvent} → IsChecked h → {s : State} → last_state h ≡ some s → IsProven s h
IsChecked-IsProven {h} past {s} last = elim (IsChecked-IsHistory past) [
  | inl empty ↦ ground (arith, empty, last)
  | inr history ↦ IsHistory-IsProven history last
]
