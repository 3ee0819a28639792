-- ===== src/Tests/Jobs.antt =====
-- Rounds of the job reconciler on servers that keep their objects in association lists.
use jit_bot.Base.{◌≡◌, ◌≢◌, refl, false, List, [], ◌∷◌, some, codes, str_eq}
use jit_bot.Base.Int.{ℤ, pos, ◌+ℤ◌}
use jit_bot.Base.{none}
use jit_bot.Base.Result.{ok}
use jit_bot.Access.{grant_access, grant_entry, generate_kube_config}
use jit_bot.Controller.Types.{completed}
use jit_bot.Controller.Convert.{convert_to_cluster}
use jit_bot.Controller.Job.Rounds.{without_refusals, kube_config_name}
use jit_bot.Controller.Job.Progress.{granted_job_completes}
use jit_bot.Aws.{create_jit_access_entry, create_access_entry}
use jit_bot.Base.Map.{lookup, lookup_head}
use jit_bot.Auth.{new_rbac}
use jit_bot.Aws.{AccessEntry, EntryKey}
use jit_bot.Aws.Memory.{entries}
use jit_bot.Access.Revoke.{grant_key}
use jit_bot.Controller.Types.{JitAccessJob, ObjectReference, expiring}
use jit_bot.Aws.{entry_eq}
use jit_bot.Controller.Kube.{reference_eq, nil_dereference, job_key}
use jit_bot.Controller.Kube.Memory.{Kube, memory}
use jit_bot.Controller.Convert.{grant_request}
use jit_bot.Controller.Request.{owned_job, sync_with_job}
use jit_bot.Controller.Job.{JobFaults, Library, reconcile, with_completion}
use jit_bot.Controller.Job.Steps.{JobMoved}
use jit_bot.Controller.Job.Lifecycle.{reconcile-JobMoved}
use jit_bot.Controller.Job.Timed.{JobRound, run_job_rounds, sync-run_job_rounds}
use jit_bot.Controller.Job.Blocked.{credentials_name, existing_secret_blocks}
use jit_bot.Controller.Kube.{Secret}
use jit_bot.Controller.Types.{creating, failed}
use jit_bot.Base.{◌⊎◌, ◌++◌}
use jit_bot.Controller.Job.Leftover.{completion_leaves_entry}
use jit_bot.Tests.Admission.{alice_request}
use jit_bot.Tests.Cloud.{at_noon, handed_out, differs}
use jit_bot.Tests.Rounds.{print, request_key, no_faults}

abbrev pub calm : JobFaults
calm = record {
  get = false;
  get_request = false;
  create_credentials = false;
  create_kube_config = false;
  delete_credentials = false;
  delete_kube_config = false;
  update = false;
}

abbrev pub at_four : Library
at_four = record {
  parse_duration = λ s. some (pos 7200000000000);
  describe_duration = λ s. s;
  describe = print;
  describe_grant = λ e. codes "refused";
  format_time = λ t. codes "2024-01-01T16:00:00Z";
  timestamp = codes "20240101-160000";
  unix = codes "1704124800";
}

abbrev pub alice_job : JitAccessJob
alice_job = owned_job alice_request

abbrev pub new_job_key : ObjectReference
new_job_key = job_key alice_job

abbrev holding : JitAccessJob → Kube
holding job = record {
  requests = (request_key, alice_request) ∷ [];
  jobs = (new_job_key, job) ∷ [];
  secrets = [];
}

found : (job : JitAccessJob) → memory.job_at new_job_key (holding job) ≡ some job
found job = lookup_head new_job_key job []

reconcile-JobMoved_example :
    JobMoved memory at_four
      (pos 9)
      new_job_key
      alice_job
      (reconcile memory entries
        (pos 9)
        calm
        at_noon
        new_job_key
        at_four
        (holding alice_job)
        []).kube
reconcile-JobMoved_example =
    reconcile-JobMoved memory entries (pos 9) calm at_noon new_job_key at_four alice_job
      (holding alice_job) [] (found alice_job)

abbrev some_rounds : List JobRound
some_rounds =
    record { now = pos 9; faults = calm; answers = at_noon; lib = at_four }
    ∷ record { now = pos 10; faults = calm; answers = at_noon; lib = at_four }
    ∷ []

sync-run_job_rounds_example :
    (sync_with_job memory
      (new_rbac [])
      (pos 11)
      no_faults
      request_key
      print
      alice_request
      (run_job_rounds memory entries (job_key alice_job) some_rounds (holding alice_job) [])).error
    ≢ some nil_dereference
sync-run_job_rounds_example =
    sync-run_job_rounds memory entries (new_rbac []) (pos 11) no_faults request_key print
      alice_request alice_request.status some_rounds (holding alice_job) [] (found alice_job)

abbrev ending_job : JitAccessJob
ending_job = record alice_job { status = record (alice_job.status) { phase = expiring } }

abbrev noon_key : EntryKey
noon_key =
    grant_key entries (codes "20240101-120000")
      (grant_request at_four.parse_duration ending_job alice_request)

abbrev noon_entry : AccessEntry
noon_entry = record {
  cluster_name = codes "prod-east";
  principal_arn = noon_key.principal;
  username = codes "jit:U123ABC456D";
  groups = [];
  access_policies = [];
  tags = [];
}

the_request :
    memory.request_at ending_job.spec.access_request_ref (holding ending_job) ≡ some alice_request
unfolding owned_job
the_request = lookup_head request_key alice_request []

completion_leaves_entry_example :
    (memory.job_at new_job_key
        (reconcile memory entries
          (pos 9)
          calm
          at_noon
          new_job_key
          at_four
          (holding ending_job)
          ((noon_key, noon_entry) ∷ [])).kube
      ≡ some (with_completion (pos 9) ending_job))
    × (entries.entry_at noon_key
          (reconcile memory entries
            (pos 9)
            calm
            at_noon
            new_job_key
            at_four
            (holding ending_job)
            ((noon_key, noon_entry) ∷ [])).entries
        ≡ some noon_entry)
completion_leaves_entry_example =
    completion_leaves_entry memory entries (pos 9) calm at_noon new_job_key at_four ending_job
      alice_request (holding ending_job) ((noon_key, noon_entry) ∷ []) (codes "20240101-120000")
      noon_entry (found ending_job) the_request refl refl refl (lookup_head noon_key noon_entry [])
      (differs (codes "20240101-120000") (codes "20240101-160000") (unfold str_eq in refl))

abbrev old_secret : Secret
old_secret = record {
  name = codes "jit-credentials-" ++ alice_job.meta.name;
  namespace = alice_job.meta.namespace;
  labels = [];
  content = [];
}

abbrev granting_job : JitAccessJob
granting_job = record alice_job { status = record (alice_job.status) { phase = creating } }

abbrev holding_secret : Kube
holding_secret = record (holding granting_job) {
  secrets = (credentials_name granting_job, old_secret) ∷ [];
}

existing_secret_blocks_example :
    (last : JitAccessJob) × (memory.job_at new_job_key
        (run_job_rounds memory entries new_job_key some_rounds holding_secret [])
      ≡ some last)
    × ((last.status.phase ≡ creating) ⊎ (last.status.phase ≡ failed))
existing_secret_blocks_example =
    existing_secret_blocks memory entries new_job_key some_rounds holding_secret [] granting_job
      old_secret (lookup_head new_job_key granting_job []) refl
      (lookup_head (credentials_name granting_job) old_secret [])

-- Four rounds, the third one after the expiry.
abbrev pub round_at : ℤ → JobRound
round_at now = record { now = now; faults = calm; answers = at_noon; lib = at_four }

abbrev pub entries_at_noon : List (EntryKey × AccessEntry)
entries_at_noon =
    (grant_access entries at_noon (grant_request at_four.parse_duration alice_job alice_request)
      []).0

pub noon_grant :
    grant_access entries at_noon (grant_request at_four.parse_duration alice_job alice_request) []
    ≡ (entries_at_noon, ok handed_out)
unfolding grant_access grant_entry create_jit_access_entry create_access_entry lookup grant_request
    owned_job convert_to_cluster generate_kube_config
noon_grant = refl

granted_job_completes_example :
    let k' =
      run_job_rounds memory entries new_job_key
        (without_refusals (round_at (pos 9))
          ∷ without_refusals (round_at (pos 10))
          ∷ without_refusals (round_at (pos 7200000000010))
          ∷ without_refusals (round_at (pos 7200000000011))
          ∷ [])
        (holding alice_job)
        [] in
    (last : JitAccessJob) × (memory.job_at new_job_key k' ≡ some last)
    × (last.status.phase ≡ completed)
    × (last.status.completion_time ≡ some (pos 7200000000011))
    × (memory.secret_at (credentials_name alice_job) k' ≡ none)
    × (memory.secret_at (kube_config_name alice_job) k' ≡ none)
granted_job_completes_example =
    granted_job_completes memory entries new_job_key (round_at (pos 9)) (round_at (pos 10))
      (round_at (pos 7200000000010)) (round_at (pos 7200000000011)) alice_job alice_request
      (pos 7200000000000) handed_out (holding alice_job) [] entries_at_noon (found alice_job)
      (unfold owned_job in refl) refl (unfold owned_job in lookup_head request_key alice_request [])
      noon_grant (unfold lookup in refl) (unfold lookup in refl) (unfold ◌+ℤ◌ in refl)
