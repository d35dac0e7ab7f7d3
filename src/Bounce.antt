-- ===== src/Bounce.antt =====
-- internal/core/bounce_processor.go: bounces of mail. The tables of the database are lists of rows;
-- which calls of the database succeed is an argument, `Calls`. The time of an event is left out.
pub mod Classes
pub mod Record
pub mod Lines
pub mod Logs
pub mod Accounts
pub mod Scope
pub mod Hard
pub mod Soft
pub mod Passes
pub mod Missed
mod Tests
use sampmail.Prelude.{ℕ, Bool, List, Text}
use sampmail.Suppression.{Row}

pub data BounceType : Type 0 where
  hard soft complaint : BounceType

pub data Action : Type 0 where
  suppress retry suppress_threshold handle_complaint : Action

-- BounceInfo
pub record Info : Type 0 where
  pub recipient : Text
  pub bounce_type : BounceType
  pub code : Text
  pub diagnostic : Text
  pub campaign : ℕ

-- BounceClassification
pub record Class : Type 0 where
  pub bounce_type : BounceType
  pub action : Action
  pub reason : Text
  pub retryable : Bool

-- BounceEvent
pub record Event : Type 0 where
  pub email : Text
  pub bounce_type : BounceType
  pub code : Text
  pub diagnostic : Text
  pub campaign : ℕ

pub record ContactRow : Type 0 where
  pub email : Text
  pub status : Text

pub record CampaignRow : Type 0 where
  pub sender : ℕ
  pub total_bounced : ℕ
  pub total_soft_bounced : ℕ

pub record Tables : Type 0 where
  pub events : List Event
  pub suppressions : List Row
  pub contacts : List ContactRow
  pub campaigns : List (ℕ × CampaignRow)
  pub reputations : List (ℕ × ℕ)

-- The calls that succeed: reading the events of an address, storing an event, adding a suppression,
-- and the updates of the other tables.
pub record Calls : Type 0 where
  pub reads : Bool
  pub creates : Bool
  pub adds : Bool
  pub updates : Bool
