-- ===== src/GhEvent.antt =====
-- The events that GitHub sends: ofborg/src/ghevent/.
use ofborg.Base.{ℕ, Option, Text}

pub record User : Type 0 where
  pub login : Text

pub record Comment : Type 0 where
  pub body : Text
  pub user : User

pub record Repository : Type 0 where
  pub owner : User
  pub name : Text
  pub full_name : Text
  pub clone_url : Text

pub record Issue : Type 0 where
  pub number : ℕ

pub data IssueCommentAction : Type 0 where
  created edited deleted : IssueCommentAction

pub record IssueComment : Type 0 where
  pub action : IssueCommentAction
  pub comment : Comment
  pub repository : Repository
  pub issue : Issue

pub data PullRequestState : Type 0 where
  open_state closed_state : PullRequestState

pub data PullRequestAction : Type 0 where
  assigned unassigned review_requested review_request_removed labeled unlabeled : PullRequestAction
  opened edited_pr closed reopened synchronize : PullRequestAction

pub record PullRequestRef : Type 0 where
  pub git_ref : Text
  pub sha : Text

pub record PullRequest : Type 0 where
  pub state : PullRequestState
  pub base : PullRequestRef
  pub head : PullRequestRef

-- `ChangeWas`
pub record ChangeWas : Type 0 where
  pub was : Text

pub record BaseChange : Type 0 where
  pub git_ref : ChangeWas
  pub sha : ChangeWas

pub record PullRequestChanges : Type 0 where
  pub base : Option BaseChange

pub record PullRequestEvent : Type 0 where
  pub action : PullRequestAction
  pub number : ℕ
  pub repository : Repository
  pub pull_request : PullRequest
  pub changes : Option PullRequestChanges
