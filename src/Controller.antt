-- ===== src/Controller.antt =====
-- pkg/controller: the custom resources, the API server, and the two reconcilers.
pub mod Types
pub mod Kube
pub mod Request
pub mod Convert
pub mod Job
pub mod Joint
