-- ===== src/Tournament.antt =====
-- The states of a tournament, src/modules/tournament/tournament-status.machine.ts.
pub mod Progress
use farzin.Prelude.{Bool, true, false, not, ◌||◌, List, [], ◌∷◌, Result, throw_if}

pub data TournamentStatus : Type 0 where
  draft registration_open registration_closed in_progress completed cancelled : TournamentStatus

abbrev pub same_status : TournamentStatus → TournamentStatus → Bool
same_status draft draft = true
same_status registration_open registration_open = true
same_status registration_closed registration_closed = true
same_status in_progress in_progress = true
same_status completed completed = true
same_status cancelled cancelled = true
same_status _ _ = false

-- `ALLOWED_TRANSITIONS`.
abbrev pub allowed_transitions : TournamentStatus → List TournamentStatus
allowed_transitions draft = registration_open ∷ cancelled ∷ []
allowed_transitions registration_open = registration_closed ∷ cancelled ∷ []
allowed_transitions registration_closed = in_progress ∷ cancelled ∷ []
allowed_transitions in_progress = completed ∷ cancelled ∷ []
allowed_transitions completed = []
allowed_transitions cancelled = []

abbrev pub includes_target : List TournamentStatus → TournamentStatus → Bool
includes_target [] s = false
includes_target (t ∷ ts) s = same_status t s || includes_target ts s

abbrev pub can_transition : TournamentStatus → TournamentStatus → Bool
can_transition source target = includes_target (allowed_transitions source) target

-- `BusinessRuleError('INVALID_STATUS_TRANSITION')`, with the two states.
pub record InvalidStatusTransition : Type 0 where
  pub source : TournamentStatus
  pub target : TournamentStatus

unfoldable pub assert_transition :
    TournamentStatus → TournamentStatus → Result InvalidStatusTransition (Unit {0})
assert_transition source target =
    throw_if (not (can_transition source target)) (record { source = source; target = target })
