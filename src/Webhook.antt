-- ===== src/Webhook.antt =====
-- pkg/webhook: the admission webhooks of the operator.
pub mod Regex
pub mod Duration
pub mod Validation
pub mod Mutation
