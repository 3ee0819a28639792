-- ===== src/Controller/Kube/Memory.antt =====
-- A server that keeps its objects in association lists: the laws of `ApiServer` can be met.
use jit_bot.Base.{◌≡◌, refl, List, Option, none, some, if◌then◌else◌}
use jit_bot.Base.Map.{lookup, insert, delete, lookup-insert, lookup-delete}
use jit_bot.Controller.Types.{JitAccessRequest, JitAccessJob, ObjectReference}
use jit_bot.Controller.Kube.{ApiServer, Secret, key_eq, reference_eq}

pub record Kube : Type 0 where
  pub requests : List (ObjectReference × JitAccessRequest)
  pub jobs : List (ObjectReference × JitAccessJob)
  pub secrets : List (ObjectReference × Secret)

abbrev pub put_or_delete :
    ObjectReference
    → Option Secret
    → List (ObjectReference × Secret)
    → List (ObjectReference × Secret)
put_or_delete key none m = delete key m
put_or_delete key (some s) m = insert key s m

pub lookup-put_or_delete :
    (i j : ObjectReference) (r : Option Secret) (m : List (ObjectReference × Secret))
    → lookup j (put_or_delete i r m) ≡ (if key_eq i j then r else lookup j m)
lookup-put_or_delete i j none m = lookup-delete i j m
lookup-put_or_delete i j (some s) m = lookup-insert i j s m

abbrev pub memory : ApiServer
memory = record {
  State = Kube;
  request_at = λ key k. lookup key k.requests;
  job_at = λ key k. lookup key k.jobs;
  secret_at = λ key k. lookup key k.secrets;
  put_request = λ key r k. record k { requests = insert key r k.requests };
  put_job = λ key r k. record k { jobs = insert key r k.jobs };
  put_secret = λ key r k. record k { secrets = put_or_delete key r k.secrets };
  request_at_put_request = λ i j r k. lookup-insert i j r k.requests;
  request_at_put_job = λ i j r k. refl;
  request_at_put_secret = λ i j r k. refl;
  job_at_put_request = λ i j r k. refl;
  job_at_put_job = λ i j r k. lookup-insert i j r k.jobs;
  job_at_put_secret = λ i j r k. refl;
  secret_at_put_request = λ i j r k. refl;
  secret_at_put_job = λ i j r k. refl;
  secret_at_put_secret = λ i j r k. lookup-put_or_delete i j r k.secrets;
}
