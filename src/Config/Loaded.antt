-- ===== src/Config/Loaded.antt =====
-- Which configurations LoadFromViper of internal/config/config.go accepts.
use mathlib.Core.Path.{subst}
use jit_bot.Base.{
  ◌≡◌, ◌≢◌, refl, ap, ◌∙◌, ◌↔◌, inl, inr, false, [], ◌∷◌, Option, none, some, Bytes, Bool-cases,
  Option-cases,
}
use jit_bot.Base.Result.{ok}
use jit_bot.Webhook.Duration.{is_nil}
use jit_bot.Config.{Config, set_defaults, validate, load_from_viper}

not_nil : (s : Bytes) → (is_nil s ≡ false) ↔ (s ≢ [])
not_nil [] = (λ e. absurd cc, λ h. absurd (h refl))
not_nil (c ∷ s) = (λ e h. cc, λ h. refl)

-- A configuration that names the token, the secret and the port.
abbrev pub IsComplete : Config → Type 0
IsComplete cfg = (cfg.slack.token ≢ []) × (cfg.slack.signing_secret ≢ []) × (cfg.server.port ≢ [])

validate_iff : (cfg : Config) → (validate cfg ≡ none) ↔ IsComplete cfg
unfolding validate
validate_iff cfg = (accepted, complete)
  where
    complete : IsComplete cfg → validate cfg ≡ none
    complete (t, s, p) = rw ((not_nil _).1 t, (not_nil _).1 s, (not_nil _).1 p)

    accepted : validate cfg ≡ none → IsComplete cfg
    accepted h = elim (Bool-cases (is_nil cfg.slack.token)) [
      | inl t ↦ absurd (cc (rw (t, validate) at h))
      | inr t ↦ elim (Bool-cases (is_nil cfg.slack.signing_secret)) [
        | inl s ↦ absurd (cc (rw (t, s, validate) at h))
        | inr s ↦ elim (Bool-cases (is_nil cfg.server.port)) [
          | inl p ↦ absurd (cc (rw (t, s, p, validate) at h))
          | inr p ↦ ((not_nil _).0 t, (not_nil _).0 s, (not_nil _).0 p)
        ]
      ]
    ]

-- LoadFromViper accepts a configuration exactly if it is what viper unmarshals of the settings with the
-- program's defaults, and its token, its signing secret and its port are not empty.
pub load_from_viper_iff :
    (unmarshal : (Bytes → Option Bytes) → Option Config) (settings : Bytes → Option Bytes)
    (cfg : Config)
    → (load_from_viper unmarshal settings ≡ ok cfg)
      ↔ ((unmarshal (set_defaults settings) ≡ some cfg) × IsComplete cfg)
unfolding load_from_viper
load_from_viper_iff unmarshal settings cfg = (accepted, loads)
  where
    loads :
        ((unmarshal (set_defaults settings) ≡ some cfg) × IsComplete cfg)
        → load_from_viper unmarshal settings ≡ ok cfg
    loads (u, c) = rw (u, (validate_iff cfg).1 c, load_from_viper)

    accepted :
        load_from_viper unmarshal settings ≡ ok cfg
        → (unmarshal (set_defaults settings) ≡ some cfg) × IsComplete cfg
    accepted h = elim (Option-cases (unmarshal (set_defaults settings))) [
      | inl u ↦ absurd (cc (rw (u, load_from_viper) at h))
      | inr (c, u) ↦ elim (Option-cases (validate c)) [
        | inr (e, v) ↦ absurd (cc (rw (u, v, load_from_viper) at h))
        | inl v ↦
            let same : c ≡ cfg = cc (rw (u, v, load_from_viper) at h) in
            (u ∙ ap some same, (validate_iff cfg).0 (subst (λ x. validate x ≡ none) same v))
      ]
    ]
