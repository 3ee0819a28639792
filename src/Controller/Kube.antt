-- ===== src/Controller/Kube.antt =====
-- The Kubernetes API server as the reconcilers of pkg/controller see it through their client. The
-- server is no part of the program: it is an `ApiServer`, a store of objects with the laws of
-- reading and writing, over which the model is generic. Each client call has a Boolean beside it
-- that says whether the server refuses it for a reason of its own (a timeout, a missing right).
pub mod Laws
pub mod Memory
use jit_bot.Base.{
  ℕ, ◌≡◌, refl, ◌↔◌, Bool, true, false, ◌&&◌, List, [], ◌∷◌, Option, none, some, Bytes, arith,
  str_eq, str_eq_iff, if◌then◌else◌,
}
use jit_bot.Base.Tests.{Eq}
use jit_bot.Base.Result.{Result, ok, err}
use jit_bot.Base.Map.{lookup, insert, delete}
use jit_bot.Controller.Types.{JitAccessRequest, JitAccessJob, ObjectReference}

abbrev pub key_eq : ObjectReference → ObjectReference → Bool
key_eq a b = str_eq a.namespace b.namespace && str_eq a.name b.name

pub key_eq_iff : (a b : ObjectReference) → (key_eq a b ≡ true) ↔ (a ≡ b)
key_eq_iff a b = ground (arith, str_eq_iff a.namespace b.namespace, str_eq_iff a.name b.name)

instance abbrev pub reference_eq : Eq ObjectReference
reference_eq = record { beq = key_eq; beq_iff = key_eq_iff }

-- corev1.Secret, with the data under its keys.
pub record Secret : Type 0 where
  pub name : Bytes
  pub namespace : Bytes
  pub labels : List (Bytes × Bytes)
  pub content : List (Bytes × Bytes)

-- Reading an object, and the store after an object is put under a key or taken away.
pub record ApiServer : Type 1 where
  pub State : Type 0
  pub request_at : ObjectReference → State → Option JitAccessRequest
  pub job_at : ObjectReference → State → Option JitAccessJob
  pub secret_at : ObjectReference → State → Option Secret
  pub put_request : ObjectReference → JitAccessRequest → State → State
  pub put_job : ObjectReference → JitAccessJob → State → State
  pub put_secret : ObjectReference → Option Secret → State → State
  pub request_at_put_request :
      (i j : ObjectReference) (r : JitAccessRequest) (k : State)
      → request_at j (put_request i r k) ≡ (if key_eq i j then some r else request_at j k)
  pub request_at_put_job :
      (i j : ObjectReference) (r : JitAccessJob) (k : State)
      → request_at j (put_job i r k) ≡ request_at j k
  pub request_at_put_secret :
      (i j : ObjectReference) (r : Option Secret) (k : State)
      → request_at j (put_secret i r k) ≡ request_at j k
  pub job_at_put_request :
      (i j : ObjectReference) (r : JitAccessRequest) (k : State)
      → job_at j (put_request i r k) ≡ job_at j k
  pub job_at_put_job :
      (i j : ObjectReference) (r : JitAccessJob) (k : State)
      → job_at j (put_job i r k) ≡ (if key_eq i j then some r else job_at j k)
  pub job_at_put_secret :
      (i j : ObjectReference) (r : Option Secret) (k : State)
      → job_at j (put_secret i r k) ≡ job_at j k
  pub secret_at_put_request :
      (i j : ObjectReference) (r : JitAccessRequest) (k : State)
      → secret_at j (put_request i r k) ≡ secret_at j k
  pub secret_at_put_job :
      (i j : ObjectReference) (r : JitAccessJob) (k : State)
      → secret_at j (put_job i r k) ≡ secret_at j k
  pub secret_at_put_secret :
      (i j : ObjectReference) (r : Option Secret) (k : State)
      → secret_at j (put_secret i r k) ≡ (if key_eq i j then r else secret_at j k)

pub data ApiError : Type 0 where
  refused not_found already_exists owner_error aws_error nil_dereference : ApiError

-- client.IgnoreNotFound
abbrev pub ignore_not_found : ApiError → Option ApiError
ignore_not_found not_found = none
ignore_not_found e = some e

abbrev pub request_key : JitAccessRequest → ObjectReference
request_key req = record { name = req.meta.name; namespace = req.meta.namespace }

abbrev pub job_key : JitAccessJob → ObjectReference
job_key job = record { name = job.meta.name; namespace = job.meta.namespace }

abbrev pub secret_key : Secret → ObjectReference
secret_key s = record { name = s.name; namespace = s.namespace }

module _ (api : ApiServer) where
  open api use {State, request_at, job_at, secret_at, put_request, put_job, put_secret}

  unfoldable pub get_request : Bool → ObjectReference → State → Result ApiError JitAccessRequest
  get_request refuses key k =
      if refuses
      then err refused
      else elim (request_at key k) [ none ↦ err not_found | some req ↦ ok req ]

  unfoldable pub get_job : Bool → ObjectReference → State → Result ApiError JitAccessJob
  get_job refuses key k =
      if refuses
      then err refused
      else elim (job_at key k) [ none ↦ err not_found | some job ↦ ok job ]

  -- Status().Update writes the status alone.
  unfoldable pub update_request_status :
      Bool → ObjectReference → JitAccessRequest → State → Result ApiError State
  update_request_status refuses key req k =
      if refuses then err refused else elim (request_at key k) [
        | none ↦ err not_found
        | some old ↦ ok (put_request key (record old { status = req.status }) k)
      ]

  unfoldable pub update_job_status :
      Bool → ObjectReference → JitAccessJob → State → Result ApiError State
  update_job_status refuses key job k = if refuses then err refused else elim (job_at key k) [
    | none ↦ err not_found
    | some old ↦ ok (put_job key (record old { status = job.status }) k)
  ]

  unfoldable pub create_request : Bool → JitAccessRequest → State → Result ApiError State
  create_request refuses req k =
      if refuses then err refused else elim (request_at (request_key req) k) [
        | some old ↦ err already_exists
        | none ↦ ok (put_request (request_key req) req k)
      ]

  unfoldable pub create_job : Bool → JitAccessJob → State → Result ApiError State
  create_job refuses job k = if refuses then err refused else elim (job_at (job_key job) k) [
    | some old ↦ err already_exists
    | none ↦ ok (put_job (job_key job) job k)
  ]

  unfoldable pub create_secret : Bool → Secret → State → Result ApiError State
  create_secret refuses s k = if refuses then err refused else elim (secret_at (secret_key s) k) [
    | some old ↦ err already_exists
    | none ↦ ok (put_secret (secret_key s) (some s) k)
  ]

  unfoldable pub delete_secret : Bool → ObjectReference → State → Result ApiError State
  delete_secret refuses key k =
      if refuses
      then err refused
      else elim (secret_at key k) [ none ↦ err not_found | some old ↦ ok (put_secret key none k) ]

  -- What a reconciler returns: the objects, the wait before the next round (0 is none), the error.
  pub record Reply : Type 0 where
    pub kube : State
    pub requeue_after : ℕ
    pub error : Option ApiError

  -- The reply after a Status().Update: an error, or the wait given.
  abbrev pub reply_updated : State → ℕ → Result ApiError State → Reply
  reply_updated k wait (ok k') = record { kube = k'; requeue_after = wait; error = none }
  reply_updated k wait (err e) = record { kube = k; requeue_after = 0; error = some e }

  abbrev pub reply_done : State → ℕ → Reply
  reply_done k wait = record { kube = k; requeue_after = wait; error = none }

  abbrev pub reply_error : State → ApiError → Reply
  reply_error k e = record { kube = k; requeue_after = 0; error = some e }
