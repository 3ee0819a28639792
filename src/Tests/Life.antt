-- ===== src/Tests/Life.antt =====
-- A request to a server that was just started, whose only admin is also listed as approver.
use jit_bot.Base.{◌≡◌, refl, [], ◌∷◌, none, Bytes, codes, arith}
use jit_bot.Base.Result.{ok}
use jit_bot.Auth.{router_rbac}
use jit_bot.Store.{new_memory_store}
use jit_bot.Aws.Memory.{entries}
use jit_bot.Config.{Config}
use jit_bot.Handlers.{Server}
use jit_bot.Handlers.Start.{Loading, new_router}
use jit_bot.Handlers.Router.{serve, clusters, post}
use jit_bot.Handlers.Router.Life.{begin, next, api, IsLeaderless, IsIdle, new_router-IsIdle}
use jit_bot.Tests.Settings.{expected}
use jit_bot.Tests.Http.{decoders, nothing_listed, noon, of_alice}

abbrev both : Config
both = record expected {
  auth = record { admin_users = codes "alice" ∷ []; approvers = codes "alice" ∷ codes "bob" ∷ [] };
}

leaderless : IsLeaderless both
leaderless u h = ground arith

abbrev loads : Loading Bytes
loads = record { sts_error = λ _. none; eks_error = λ _. none }

abbrev fresh : Server entries
fresh = record {
  rbac = router_rbac both.auth.admin_users both.auth.approvers;
  store = new_memory_store;
  entries = [];
}

starts : new_router loads entries [] both ≡ ok fresh
unfolding new_router
starts = refl

-- alice asks for a new cluster.
abbrev asked : Server entries
asked = (serve entries decoders nothing_listed noon (of_alice []) clusters post fresh).0

new_router-IsIdle_example : IsIdle asked
new_router-IsIdle_example =
    new_router-IsIdle loads entries [] both fresh asked leaderless starts
      (next begin (api decoders nothing_listed noon (of_alice []) clusters post fresh))
