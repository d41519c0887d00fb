-- ===== src/Agent/Tables.antt =====
-- The tables agent_inbox and agent_outbox of migrations/, and the errors of the agent's repositories.
use linktracker_eng.Prelude.{ℕ, Bool, true, false, Option, List}
use linktracker_eng.Exec.{Exec}
use linktracker_eng.Db.{Session}
use linktracker_eng.Agent.Updates.{RawUpdate, ProcessedUpdate}

pub data AgentError : Type 0 where
  duplicate_msg bad_message : AgentError

abbrev pub same_agent_error : AgentError → AgentError → Bool
same_agent_error duplicate_msg duplicate_msg = true
same_agent_error bad_message bad_message = true
same_agent_error _ _ = false

pub record InboxRow : Type 0 where
  pub update : RawUpdate
  pub processed : Bool
  pub created_at : ℕ

pub record OutboxRow : Type 0 where
  pub update : ProcessedUpdate
  pub created_at : ℕ
  pub processed_at : Option ℕ
  pub failed : Bool  -- whether `error` is set
  pub retry_count : ℕ

pub record Tables : Type 0 where
  pub inbox : List InboxRow
  pub outbox : List OutboxRow

abbrev pub Op : Type 0 → Type 0
Op A = Exec AgentError (Session Tables) A
