-- ===== src/Aws.antt =====
-- pkg/aws: session names, the entries that give access to an EKS cluster, and their policies. EKS
-- itself is no part of the program: it is an `EksServer`, a store of access entries with the laws
-- of reading and writing. A Boolean beside a call says whether AWS refuses it for a reason of its
-- own. Time stamps are the texts that time.Format gives.
pub mod Policies
pub mod Aged
pub mod Calls
pub mod Memory
use jit_bot.Base.{
  ℕ, ◌≡◌, refl, ◌↔◌, Bool, true, false, ◌&&◌, ◌||◌, List, [], ◌∷◌, ◌++◌, Option, none, some, Bytes,
  codes, arith, str_eq, str_eq_iff, if◌then◌else◌, length, ◌==◌,
}
use jit_bot.Base.Tests.{Eq}
use jit_bot.Base.Result.{Result, ok, err}
use jit_bot.Base.Int.{ℤ}

pub record Credentials : Type 0 where
  pub access_key_id : Bytes
  pub secret_access_key : Bytes
  pub session_token : Bytes
  pub expiration : ℤ

pub data ScopeType : Type 0 where
  cluster_scope namespace_scope : ScopeType

pub record AccessScope : Type 0 where
  pub kind : ScopeType
  pub namespaces : List Bytes

pub data PolicyArn : Type 0 where
  viewer_policy editor_policy admin_policy : PolicyArn

pub record AccessPolicy : Type 0 where
  pub policy_arn : PolicyArn
  pub access_scope : AccessScope

-- An entry as it is asked for, without the two times that EKS sets.
pub record AccessEntry : Type 0 where
  pub cluster_name : Bytes
  pub principal_arn : Bytes
  pub username : Bytes
  pub groups : List Bytes
  pub access_policies : List AccessPolicy
  pub tags : List (Bytes × Bytes)

pub record EntryKey : Type 0 where
  pub cluster : Bytes
  pub principal : Bytes

abbrev pub entry_key_eq : EntryKey → EntryKey → Bool
entry_key_eq a b = str_eq a.cluster b.cluster && str_eq a.principal b.principal

pub entry_key_eq_iff : (a b : EntryKey) → (entry_key_eq a b ≡ true) ↔ (a ≡ b)
entry_key_eq_iff a b =
    ground (arith, str_eq_iff a.cluster b.cluster, str_eq_iff a.principal b.principal)

instance abbrev pub entry_eq : Eq EntryKey
entry_eq = record { beq = entry_key_eq; beq_iff = entry_key_eq_iff }

pub record EksServer : Type 1 where
  pub State : Type 0
  pub entry_at : EntryKey → State → Option AccessEntry
  pub put_entry : EntryKey → Option AccessEntry → State → State
  pub entry_at_put_entry :
      (i j : EntryKey) (e : Option AccessEntry) (s : State)
      → entry_at j (put_entry i e s) ≡ (if entry_key_eq i j then e else entry_at j s)

-- GenerateJITSessionName, with the time stamp of the call.
unfoldable pub generate_jit_session_name : Bytes → Bytes → Bytes → Bytes
generate_jit_session_name timestamp user_id cluster_id =
    codes "jit-" ++ (user_id ++ (codes "-" ++ (cluster_id ++ (codes "-" ++ timestamp))))

-- The scope of every policy but the admin policy.
abbrev pub scope_of : List Bytes → AccessScope
scope_of names = record {
  kind = if length names == 0 then cluster_scope else namespace_scope;
  namespaces = names;
}

abbrev pub scoped : PolicyArn → List Bytes → AccessPolicy
scoped arn names = record { policy_arn = arn; access_scope = scope_of names }

abbrev pub admin_everywhere : AccessPolicy
admin_everywhere = record {
  policy_arn = admin_policy;
  access_scope = record { kind = cluster_scope; namespaces = [] };
}

unfoldable pub is_any : Bytes → List Bytes → Bool
is_any s [] = false
is_any s (x ∷ xs) = str_eq s x || is_any s xs

abbrev pub admin_names : List Bytes
admin_names = codes "admin" ∷ codes "cluster-admin" ∷ []

abbrev pub debug_names : List Bytes
debug_names = codes "debug" ∷ codes "logs" ∷ codes "exec" ∷ codes "port-forward" ∷ []

-- The `switch` of CreateJITAccessEntry on one permission.
unfoldable pub policies_for : List Bytes → Bytes → List AccessPolicy
policies_for names permission =
    if str_eq permission (codes "view")
    then scoped viewer_policy names ∷ []
    else if str_eq permission (codes "edit")
    then scoped editor_policy names ∷ []
    else if is_any permission admin_names
    then admin_everywhere ∷ []
    else if is_any permission debug_names
    then scoped editor_policy names ∷ []
    else []

-- The loop over the permissions.
unfoldable pub matched_policies : List Bytes → List Bytes → List AccessPolicy
matched_policies names [] = []
matched_policies names (p ∷ ps) = policies_for names p ++ matched_policies names ps

abbrev or_view : List Bytes → List AccessPolicy → List AccessPolicy
or_view names [] = scoped viewer_policy names ∷ []
or_view names (p ∷ ps) = p ∷ ps

unfoldable pub access_policies : List Bytes → List Bytes → List AccessPolicy
access_policies permissions names = or_view names (matched_policies names permissions)

-- What AWS answers to the calls of one operation.
pub record AwsAnswers : Type 0 where
  pub refuses_create : Bool
  pub refuses_associate : AccessPolicy → Bool
  pub refuses_delete : Bool

pub data AwsError : Type 0 where
  aws_refused entry_exists no_entry : AwsError

module _ (eks : EksServer) (answers : AwsAnswers) where
  open eks use {State, entry_at, put_entry}

  -- The loop that associates the policies; one that is refused is logged and left out.
  unfoldable pub associate_all : List AccessPolicy → List AccessPolicy
  associate_all [] = []
  associate_all (p ∷ ps) =
      let rest = associate_all ps in if answers.refuses_associate p then rest else p ∷ rest

  unfoldable pub create_access_entry : AccessEntry → State → Result AwsError State
  create_access_entry entry s =
      let key : EntryKey = record {
        cluster = entry.cluster_name;
        principal = entry.principal_arn;
      } in
      if answers.refuses_create then err aws_refused else elim (entry_at key s) [
        | some old ↦ err entry_exists
        | none ↦ ok (
            put_entry key
              (some (record entry { access_policies = associate_all entry.access_policies })) s)
      ]

  unfoldable pub delete_access_entry : Bytes → Bytes → State → Result AwsError State
  delete_access_entry cluster_name principal_arn s =
      let key : EntryKey = record { cluster = cluster_name; principal = principal_arn } in
      if answers.refuses_delete
      then err aws_refused
      else elim (entry_at key s) [ none ↦ err no_entry | some old ↦ ok (put_entry key none s) ]

  -- CreateJITAccessEntry; `created_at` is the text of the time of the call.
  unfoldable pub create_jit_access_entry :
      Bytes → Bytes → Bytes → Bytes → List Bytes → List Bytes → State → Result AwsError State
  create_jit_access_entry created_at cluster principal user permissions names s =
      create_access_entry
        (record {
          cluster_name = cluster;
          principal_arn = principal;
          username = user;
          groups = [];
          access_policies = access_policies permissions names;
          tags =
              (codes "Purpose", codes "JITAccess")
              ∷ (codes "CreatedBy", codes "jit-server")
              ∷ (codes "Temporary", codes "true")
              ∷ (codes "CreatedAt", created_at)
              ∷ (codes "ExpiresAfter", codes "8h")
              ∷ [];
        })
        s
