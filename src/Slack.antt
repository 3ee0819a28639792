-- ===== src/Slack.antt =====
-- pkg/slack: the signature check of Slack's requests, the /jit command over the store, and the
-- commands that make and approve JITAccessRequests.
pub mod Middleware
pub mod Commands
pub mod K8s
use jit_bot.Base.{Bytes}

-- The fields of a command that the handlers read.
pub record SlackCommand : Type 0 where
  pub channel_id : Bytes
  pub user_id : Bytes
  pub user_name : Bytes
  pub command : Bytes
  pub text : Bytes
