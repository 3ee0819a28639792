-- ===== src/Tests/Http.antt =====
-- Requests to the HTTP API of a server with one cluster.
use jit_bot.Base.{◌≡◌, ◌≢◌, ◌↔◌, refl, List, [], ◌∷◌, Option, none, some, Bytes, codes, str_eq}
use jit_bot.Base.Text.{bytes_eq}
use jit_bot.Base.Map.{lookup, insert}
use jit_bot.Base.Int.{pos}
use jit_bot.Auth.{
  new_rbac, validate_permission, user_has_permission, get_user_role, role_allows, role_permissions,
  has_permission,
}
use jit_bot.Aws.{AccessEntry, EntryKey, entry_eq, create_jit_access_entry, create_access_entry}
use jit_bot.Aws.Memory.{entries}
use jit_bot.Access.{grant_access, grant_entry}
use jit_bot.Access.Revoke.{grant_key}
use jit_bot.Store.{MemoryStore}
use jit_bot.Handlers.{Decoders, GrantBody, HttpRequest, World, Server, AccessResponse}
use jit_bot.Handlers.Access.{
  grant_access_handler, revoke_access_handler, access_response, new_access, manager_request,
}
use jit_bot.Handlers.Access.Grant.{IsGranted, granted_reply, grant_access_iff}
use jit_bot.Handlers.Access.Later.{later_revocation_keeps_entry}
use jit_bot.Handlers.Router.{serve, users_role, access_revoke, post}
use jit_bot.Handlers.Router.Rights.{IsWithin, serve-IsWithin}
use jit_bot.Handlers.Router.Anonymous.{Refused, serve_anonymous}
use jit_bot.Tests.Tables.{dev_cluster}
use jit_bot.Tests.Cloud.{at_noon, handed_out, differs}

abbrev hour_on_dev : GrantBody
hour_on_dev = record {
  cluster_id = codes "dev-1";
  user_id = codes "bob";
  user_email = codes "bob@example.com";
  permissions = codes "view" ∷ [];
  namespaces = codes "shop" ∷ [];
  duration = codes "1h";
  reason = [];
  jit_role_arn = [];
  assume_role_arn = [];
}

-- Decoders that read every body as the same value; a revocation names the access by its body.
abbrev pub decoders : Decoders
decoders = record {
  decode_cluster = λ b. some dev_cluster;
  decode_role = λ b. none;
  decode_grant = λ b. some hour_on_dev;
  decode_revoke = λ b. some b;
  parse_duration = λ b. some (pos 3600);
}

abbrev pub nothing_listed : Bytes → List (EntryKey × AccessEntry) → Option (List Bytes)
nothing_listed name s = none

abbrev pub noon : World
noon = record {
  now = pos 100;
  fresh_id = codes "access-1";
  answers = at_noon;
  timestamp = codes "20240101-120000";
}

abbrev afternoon : World
afternoon = record {
  now = pos 200;
  fresh_id = codes "access-2";
  answers = record at_noon { timestamp = codes "20240101-160000" };
  timestamp = codes "20240101-160000";
}

-- Requests of alice with a body, and of nobody.
abbrev pub of_alice : Bytes → HttpRequest
of_alice body = record { user_id = codes "alice"; body = body; query = λ k. [] }

abbrev of_nobody : HttpRequest
of_nobody = record { user_id = []; body = []; query = λ k. [] }

abbrev one_cluster : Server entries
one_cluster = record {
  rbac = new_rbac [];
  store = record { clusters = (codes "dev-1", dev_cluster) ∷ []; accesses = [] };
  entries = [];
}

abbrev entries_after : List (EntryKey × AccessEntry)
entries_after =
    (grant_access entries at_noon
      (manager_request (new_access (pos 100) (codes "access-1") (pos 3600) hour_on_dev) dev_cluster
        hour_on_dev)
      []).0

abbrev store_after : MemoryStore
store_after = record {
  clusters = (codes "dev-1", dev_cluster) ∷ [];
  accesses =
      (codes "access-1", new_access (pos 100) (codes "access-1") (pos 3600) hour_on_dev) ∷ [];
}

abbrev answer_at_noon : AccessResponse
answer_at_noon =
    access_response (new_access (pos 100) (codes "access-1") (pos 3600) hour_on_dev) dev_cluster
      handed_out

grant_access_iff_example :
    (grant_access_handler entries decoders nothing_listed noon (of_alice []) one_cluster
      ≡ granted_reply entries decoders nothing_listed noon
          (of_alice [])
          one_cluster
          entries_after
          store_after
          answer_at_noon)
    ↔ IsGranted entries decoders nothing_listed noon
        (of_alice [])
        one_cluster
        entries_after
        store_after
        answer_at_noon
grant_access_iff_example =
    grant_access_iff entries decoders nothing_listed noon (of_alice []) one_cluster entries_after
      store_after answer_at_noon

-- The grant goes through.
granted_at_noon :
    IsGranted entries decoders nothing_listed noon
      (of_alice [])
      one_cluster
      entries_after
      store_after
      answer_at_noon
unfolding lookup insert str_eq validate_permission user_has_permission get_user_role role_allows
    role_permissions has_permission new_access manager_request access_response grant_access
    grant_entry create_jit_access_entry create_access_entry new_rbac
granted_at_noon = record {
  body = hour_on_dev;
  cluster = dev_cluster;
  duration = pos 3600;
  creds = handed_out;
  has_user = refl;
  is_allowed = refl;
  decoded = refl;
  complete = refl;
  known = refl;
  parsed = refl;
  short = refl;
  granted = refl;
  fresh = refl;
  stored = refl;
  answered = refl;
}

later : codes "20240101-120000" ≢ codes "20240101-160000"
later = differs (codes "20240101-120000") (codes "20240101-160000") (unfold str_eq in refl)

later_revocation_keeps_entry_example :
    (entry : AccessEntry) × (entries.entry_at
        (grant_key entries (codes "20240101-120000") (
          manager_request
            (new_access (pos 100) (codes "access-1") granted_at_noon.duration granted_at_noon.body)
            granted_at_noon.cluster
            granted_at_noon.body))
        entries_after
      ≡ some entry)
    × (entries.entry_at
          (grant_key entries (codes "20240101-120000") (
            manager_request
              (new_access
                (pos 100)
                (codes "access-1")
                granted_at_noon.duration
                granted_at_noon.body)
              granted_at_noon.cluster
              granted_at_noon.body))
          (revoke_access_handler entries decoders nothing_listed afternoon
            (of_alice (codes "access-1"))
            (record one_cluster { store = store_after; entries = entries_after })).0.entries
        ≡ some entry)
later_revocation_keeps_entry_example =
    later_revocation_keeps_entry entries decoders nothing_listed noon afternoon (of_alice [])
      (of_alice (codes "access-1")) one_cluster entries_after store_after answer_at_noon
      granted_at_noon (unfold granted_at_noon in refl) refl later

serve-IsWithin_example :
    IsWithin entries
      (codes "alice")
      one_cluster
      (serve entries decoders nothing_listed noon (of_alice []) users_role post one_cluster).0
serve-IsWithin_example =
    serve-IsWithin entries decoders nothing_listed noon (of_alice []) users_role post one_cluster

serve_anonymous_example :
    Refused entries one_cluster
      (serve entries decoders nothing_listed noon of_nobody access_revoke post one_cluster)
serve_anonymous_example =
    serve_anonymous entries decoders nothing_listed noon of_nobody one_cluster refl access_revoke
      post refl
