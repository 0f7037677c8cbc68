-- ===== src/Jobs/State.antt =====
-- packages/jobs/src/index.ts: the states of a job and the table of its transitions.
use myadmin.Common.{Bool, true, false, ◌==◌, List, [], ◌∷◌, any, ◌≡◌, Eq, arith, ◌↔◌}

pub data JobState : Type 0 where
  queued running completed failed cancelling cancelled : JobState

abbrev pub state_beq : JobState → JobState → Bool
state_beq queued queued = true
state_beq running running = true
state_beq completed completed = true
state_beq failed failed = true
state_beq cancelling cancelling = true
state_beq cancelled cancelled = true
state_beq _ _ = false

pub state_beq_iff : (a b : JobState) → (state_beq a b ≡ true) ↔ (a ≡ b)
state_beq_iff a b = ground arith

instance abbrev pub state_eq : Eq JobState
state_eq = record { same = state_beq; same_iff = state_beq_iff }

-- The states that may follow one.
abbrev pub transitions : JobState → List JobState
transitions queued = running ∷ cancelled ∷ []
transitions running = completed ∷ failed ∷ cancelling ∷ []
transitions completed = []
transitions failed = []
transitions cancelling = cancelled ∷ []
transitions cancelled = []

unfoldable pub can_transition_job : JobState → JobState → Bool
can_transition_job from to = any (λ s. s == to) (transitions from)

abbrev pub terminal_job_states : List JobState
terminal_job_states = completed ∷ failed ∷ cancelled ∷ []

unfoldable pub is_terminal : JobState → Bool
is_terminal state = any (λ s. s == state) terminal_job_states

-- Running or cancelling: the executor is at work.
abbrev pub is_active : JobState → Bool
is_active running = true
is_active cancelling = true
is_active _ = false
