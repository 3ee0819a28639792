-- ===== src/Handlers/Access/Grant.antt =====
-- What GrantAccess of internal/handlers/access.go asks for before it grants.
use jit_bot.Base.{
  ◌≡◌, ◌↔◌, refl, inl, inr, false, List, [], ◌∷◌, ◌++◌, Option, none, some, Bytes, codes,
  Bool-cases, Option-cases, if◌then◌else◌, arith,
}
use jit_bot.Base.Text.{bytes_eq}
use jit_bot.Base.Map.{lookup, insert}
use jit_bot.Base.Int.{ℤ, ◌+ℤ◌, ltb_ℤ}
use jit_bot.Base.Result.{Result, ok, err}
use jit_bot.Models.{Cluster, ClusterAccess, AccessStatus}
use jit_bot.Auth.{create_requests, validate_permission}
use jit_bot.Store.{MemoryStore, get_cluster, create_cluster_access, create_access}
use jit_bot.Aws.{EksServer}
use jit_bot.Access.{GrantAccessRequest, AccessCredentials, GrantError, grant_access}
use jit_bot.Webhook.Duration.{is_nil}
use jit_bot.Handlers.{
  HttpRequest, World, Decoders, GrantBody, AccessResponse, Server, Answer, replied, with_user,
  granted_body,
}
use jit_bot.Handlers.Access.{
  lacks_field, new_access, manager_request, access_response, or_view, role_arn, store_grant,
  grant_for, grant_checked, grant_access_handler,
}

-- The permission `view` where none is asked for.
abbrev view_if_none : List Bytes → List Bytes
view_if_none [] = codes "view" ∷ []
view_if_none (p ∷ ps) = p ∷ ps

abbrev arn_if_empty : Bytes → Bytes → Bytes
arn_if_empty [] arn = arn
arn_if_empty (c ∷ s) arn = c ∷ s

or_view-view_if_none : (ps : List Bytes) → or_view ps ≡ view_if_none ps
or_view-view_if_none [] = refl
or_view-view_if_none (p ∷ ps) = ground arith

role_or_default :
    (given arn : Bytes) → (if is_nil given then arn else given) ≡ arn_if_empty given arn
role_or_default [] arn = refl
role_or_default (c ∷ s) arn = refl

module _ (eks : EksServer) (lib : Decoders) (listing : Bytes → eks.State → Option (List Bytes))
    (world : World) (req : HttpRequest) where
  -- The access that a grant to the user of a body stands for: active, without approvers, and over
  -- when the duration has passed.
  abbrev granted_access : GrantBody → ℤ → ClusterAccess
  granted_access body duration = record {
    id = world.fresh_id;
    cluster_id = body.cluster_id;
    user_id = body.user_id;
    user_email = body.user_email;
    reason = body.reason;
    duration = duration;
    status = AccessStatus.active;
    approved_by = [];
    requested_at = world.now;
    approved_at = none;
    expires_at = some (world.now +ℤ duration);
    revoked_at = none;
    revoked_by = [];
    revoke_reason = [];
  }

  -- What the access manager is asked for.
  abbrev asked_grant : GrantBody → Cluster → ℤ → GrantAccessRequest
  asked_grant body cluster duration = record {
    cluster_access = granted_access body duration;
    cluster = cluster;
    user_email = body.user_email;
    permissions = view_if_none body.permissions;
    namespaces = body.namespaces;
    jit_role_arn =
        arn_if_empty body.jit_role_arn
          (codes "arn:aws:iam::" ++ (cluster.aws_account ++ codes ":role/JITAccessRole"));
    assume_role_arn = body.assume_role_arn;
  }

  -- The answer, with the credentials of the access manager.
  abbrev granted_answer : GrantBody → Cluster → AccessCredentials → AccessResponse
  granted_answer body cluster creds = record {
    access_id = world.fresh_id;
    cluster_name = cluster.name;
    user_id = body.user_id;
    kube_config = creds.kube_config;
    cluster_endpoint = creds.cluster_endpoint;
    expires_at = creds.expires_at;
    access_key_id = creds.temporary_credentials.access_key_id;
    secret_access_key = creds.temporary_credentials.secret_access_key;
    session_token = creds.temporary_credentials.session_token;
    expiration = creds.temporary_credentials.expiration;
  }

  -- A request that is granted, with the state and the answer.
  pub record IsGranted (s : Server eks) (entries : eks.State) (store : MemoryStore)
      (response : AccessResponse) : Type 0 where
    pub body : GrantBody
    pub cluster : Cluster
    pub duration : ℤ
    pub creds : AccessCredentials
    pub has_user : is_nil req.user_id ≡ false
    pub is_allowed : validate_permission s.rbac req.user_id create_requests ≡ none
    pub decoded : lib.decode_grant req.body ≡ some body
    pub complete : lacks_field body ≡ false
    pub known : lookup body.cluster_id s.store.clusters ≡ some cluster
    pub parsed : lib.parse_duration body.duration ≡ some duration
    pub short : ltb_ℤ cluster.max_duration duration ≡ false
    pub granted :
        grant_access eks world.answers (asked_grant body cluster duration) s.entries
        ≡ (entries, ok creds)
    pub fresh : lookup world.fresh_id s.store.accesses ≡ none
    pub stored : store ≡ record s.store {
      accesses = insert world.fresh_id (granted_access body duration) s.store.accesses;
    }
    pub answered : response ≡ granted_answer body cluster creds

  -- The code's request for the access manager is the one above.
  pub manager_request-asked_grant :
      (body : GrantBody) (cluster : Cluster) (duration : ℤ)
      → manager_request (new_access world.now world.fresh_id duration body) cluster body
        ≡ asked_grant body cluster duration
  unfolding manager_request new_access
  manager_request-asked_grant body cluster duration =
      rw
        (
          or_view-view_if_none body.permissions,
          role_or_default body.jit_role_arn (role_arn cluster),
        )
        refl

  -- The state and the answer of a request that is granted.
  abbrev pub granted_reply :
      Server eks → eks.State → MemoryStore → AccessResponse → Server eks × Answer
  granted_reply s entries store response =
      (record s { store = store; entries = entries }, replied 200 (granted_body response))

  -- The store with a new access.
  abbrev with_new : MemoryStore → ClusterAccess → MemoryStore
  with_new store access = record store { accesses = insert access.id access store.accesses }

  store_free :
      (access : ClusterAccess) (cluster : Cluster) (s : Server eks) (entries : eks.State)
      (creds : AccessCredentials)
      → lookup access.id s.store.accesses ≡ none
      → store_grant eks lib listing world req access cluster s (entries, ok creds)
        ≡ granted_reply s entries (with_new s.store access) (access_response access cluster creds)
  unfolding store_grant create_cluster_access create_access
  store_free access cluster s entries creds free = rw (free, store_grant, create_access)

  IsGranted-reply :
      (s : Server eks) (entries : eks.State) (store : MemoryStore) (response : AccessResponse)
      → IsGranted s entries store response
      → grant_access_handler eks lib listing world req s ≡ granted_reply s entries store response
  unfolding grant_access_handler with_user grant_checked get_cluster grant_for new_access
      access_response
  IsGranted-reply s entries store response g =
      rw
        (
          g.has_user,
          g.is_allowed,
          with_user,
          g.decoded,
          grant_access_handler,
          g.complete,
          g.known,
          grant_checked,
          get_cluster,
          g.parsed,
          g.short,
          manager_request-asked_grant g.body g.cluster g.duration,
          g.granted,
          g.stored,
          g.answered,
        )
        (store_free (granted_access g.body g.duration) g.cluster s entries g.creds g.fresh)

  stored_grant :
      (access : ClusterAccess) (cluster : Cluster) (s : Server eks) (entries : eks.State)
      (store : MemoryStore) (response : AccessResponse)
      (r : eks.State × Result GrantError AccessCredentials)
      → store_grant eks lib listing world req access cluster s r
        ≡ granted_reply s entries store response
      → (creds : AccessCredentials) × (r ≡ (entries, ok creds))
        × (lookup access.id s.store.accesses ≡ none)
        × (store ≡ with_new s.store access)
        × (response ≡ access_response access cluster creds)
  unfolding store_grant create_cluster_access create_access
  stored_grant access cluster s entries store response (t, err e) h = absurd cc
  stored_grant access cluster s entries store response (t, ok creds) h =
      elim (Option-cases (lookup access.id s.store.accesses)) [
        | inr (old, e) ↦ absurd (cc (rw (e, store_grant, create_access) at h))
        | inl e ↦ (
          creds,
          cc (rw (e, store_grant, create_access) at h),
          e,
          cc (rw (e, store_grant, create_access) at h),
          cc (rw (e, store_grant, create_access) at h),
        )
      ]

  granted_for :
      (body : GrantBody) (cluster : Cluster) (duration : ℤ) (s : Server eks) (entries : eks.State)
      (store : MemoryStore) (response : AccessResponse)
      → is_nil req.user_id ≡ false
      → validate_permission s.rbac req.user_id create_requests ≡ none
      → lib.decode_grant req.body ≡ some body
      → lacks_field body ≡ false
      → lookup body.cluster_id s.store.clusters ≡ some cluster
      → lib.parse_duration body.duration ≡ some duration
      → grant_for eks lib listing world req body cluster duration s
        ≡ granted_reply s entries store response
      → IsGranted s entries store response
  unfolding grant_for new_access access_response
  granted_for body cluster duration s entries store response u v d c k p h =
      elim (Bool-cases (ltb_ℤ cluster.max_duration duration)) [
        | inl e ↦ absurd (cc (rw (e, grant_for) at h))
        | inr e ↦
            let (creds, granted, fresh, stored, answered) =
              stored_grant (granted_access body duration) cluster s entries store response
                (grant_access eks world.answers (asked_grant body cluster duration) s.entries)
                (rw (e, grant_for, manager_request-asked_grant body cluster duration) at h) in
            record {
              body = body;
              cluster = cluster;
              duration = duration;
              creds = creds;
              has_user = u;
              is_allowed = v;
              decoded = d;
              complete = c;
              known = k;
              parsed = p;
              short = e;
              granted = granted;
              fresh = fresh;
              stored = stored;
              answered = answered;
            }
      ]

  granted_checked :
      (body : GrantBody) (s : Server eks) (entries : eks.State) (store : MemoryStore)
      (response : AccessResponse)
      → is_nil req.user_id ≡ false
      → validate_permission s.rbac req.user_id create_requests ≡ none
      → lib.decode_grant req.body ≡ some body
      → grant_checked eks lib listing world req body s ≡ granted_reply s entries store response
      → IsGranted s entries store response
  unfolding grant_checked get_cluster
  granted_checked body s entries store response u v d h = elim (Bool-cases (lacks_field body)) [
    | inl c ↦ absurd (cc (rw (c, grant_checked) at h))
    | inr c ↦ elim (Option-cases (lookup body.cluster_id s.store.clusters)) [
      | inl k ↦ absurd (cc (rw (c, k, grant_checked, get_cluster) at h))
      | inr (cluster, k) ↦ elim (Option-cases (lib.parse_duration body.duration)) [
        | inl p ↦ absurd (cc (rw (c, k, p, grant_checked, get_cluster) at h))
        | inr (duration, p) ↦
            granted_for body cluster duration s entries store response u v d c k p
              (rw (c, k, p, grant_checked, get_cluster) at h)
      ]
    ]
  ]

  reply-IsGranted :
      (s : Server eks) (entries : eks.State) (store : MemoryStore) (response : AccessResponse)
      → grant_access_handler eks lib listing world req s ≡ granted_reply s entries store response
      → IsGranted s entries store response
  unfolding grant_access_handler with_user
  reply-IsGranted s entries store response h = elim (Bool-cases (is_nil req.user_id)) [
    | inl u ↦ absurd (cc (rw (u, grant_access_handler, with_user) at h))
    | inr u ↦ elim (Option-cases (validate_permission s.rbac req.user_id create_requests)) [
      | inr (x, v) ↦ absurd (cc (rw (u, v, grant_access_handler, with_user) at h))
      | inl v ↦ elim (Option-cases (lib.decode_grant req.body)) [
        | inl d ↦ absurd (cc (rw (u, v, d, grant_access_handler, with_user) at h))
        | inr (body, d) ↦
            granted_checked body s entries store response u v d
              (rw (u, v, d, grant_access_handler, with_user) at h)
      ]
    ]
  ]

-- GrantAccess grants, with a given state and response, exactly if the caller is named and may create
-- requests, the body decodes and names a stored cluster, the user and the address, its duration parses
-- and is at most the cluster's limit, the access manager grants, and the new identifier is free. The
-- store gains one access: of the body's user, Active, requested now and over when the duration has passed.
-- The access manager is asked for the body's permissions, by default `view`, in its namespaces with its
-- role, by default the cluster account's JITAccessRole, and the response has its credentials. No
-- approval, no enabled flag and no owner is asked for.
pub grant_access_iff :
    (eks : EksServer) (lib : Decoders) (listing : Bytes → eks.State → Option (List Bytes))
    (world : World) (req : HttpRequest) (s : Server eks) (entries : eks.State) (store : MemoryStore)
    (response : AccessResponse)
    → (grant_access_handler eks lib listing world req s
        ≡ granted_reply eks lib listing world req s entries store response)
      ↔ IsGranted eks lib listing world req s entries store response
grant_access_iff eks lib listing world req s entries store response = (
  reply-IsGranted eks lib listing world req s entries store response,
  IsGranted-reply eks lib listing world req s entries store response,
)
