-- ===== src/Handlers/Start.antt =====
-- How the handlers are made: NewRouter of internal/handlers/router.go, NewAccessHandler of
-- internal/handlers/access.go, NewAccessManager of pkg/kubernetes/access.go, and NewSTSService and
-- NewEKSService of pkg/aws. Whether the settings of AWS load for a region is an answer of the library,
-- for each of the two services.
use jit_bot.Base.{Option, none, some, Bytes}
use jit_bot.Base.Result.{Result, ok, err}
use jit_bot.Auth.{Rbac, router_rbac}
use jit_bot.Store.{MemoryStore, new_memory_store}
use jit_bot.Aws.{EksServer}
use jit_bot.Config.{Config}
use jit_bot.Handlers.{Server}

pub data StartError (X : Type 0) : Type 0 where
  sts_service eks_service : X → StartError X

-- The errors of LoadDefaultConfig for a region.
pub record Loading (X : Type 0) : Type 0 where
  pub sts_error : Bytes → Option X
  pub eks_error : Bytes → Option X

pub record StsService : Type 0 where
  pub region : Bytes

pub record EksService : Type 0 where
  pub region : Bytes

pub record AccessManager : Type 0 where
  pub sts_service : StsService
  pub eks_service : EksService
  pub region : Bytes

pub record AccessHandler : Type 0 where
  pub rbac : Rbac
  pub store : MemoryStore
  pub access_manager : AccessManager
  pub region : Bytes

module _ {X : Type 0} (loading : Loading X) where
  unfoldable pub new_sts_service : Bytes → Result X StsService
  new_sts_service region = elim (loading.sts_error region) [
    | some e ↦ err e
    | none ↦ ok (record { region = region })
  ]

  unfoldable pub new_eks_service : Bytes → Result X EksService
  new_eks_service region = elim (loading.eks_error region) [
    | some e ↦ err e
    | none ↦ ok (record { region = region })
  ]

  unfoldable pub new_access_manager : Bytes → Result (StartError X) AccessManager
  unfolding new_sts_service new_eks_service
  new_access_manager region = elim (new_sts_service region) [
    | err e ↦ err (StartError.sts_service e)
    | ok sts ↦ elim (new_eks_service region) [
      | err e ↦ err (StartError.eks_service e)
      | ok eks ↦ ok (record { sts_service = sts; eks_service = eks; region = region })
    ]
  ]

  unfoldable pub new_access_handler :
      Rbac → MemoryStore → Bytes → Result (StartError X) AccessHandler
  unfolding new_access_manager
  new_access_handler rbac store region = elim (new_access_manager region) [
    | err e ↦ err e
    | ok manager ↦
        ok (record { rbac = rbac; store = store; access_manager = manager; region = region })
  ]

  -- The state behind the handlers that NewRouter makes, with the entries that EKS has.
  unfoldable pub new_router :
      (eks : EksServer) → eks.State → Config → Result (StartError X) (Server eks)
  unfolding new_access_handler router_rbac new_memory_store
  new_router eks entries cfg =
      let rbac = router_rbac cfg.auth.admin_users cfg.auth.approvers in
      elim (new_access_handler rbac new_memory_store cfg.aws.region) [
        | err e ↦ err e
        | ok handler ↦ ok (record { rbac = rbac; store = new_memory_store; entries = entries })
      ]
