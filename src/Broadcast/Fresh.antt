-- ===== src/Broadcast/Fresh.antt =====
-- About `BroadcastManager` of broadcast/manager.py: how fresh its broadcasts are, and that they stay.
use nexus_spark_lib.Base.{
  ℕ, ◌-◌, ◌≤◌, ◌≡◌, refl, ◌∙◌, subst, Bool, true, false, Option, none, some, List, [], ◌∷◌, arith,
  is_some, if◌then◌else◌, Bool-cases, Option-cases, inl, inr, ◌⊎◌,
}
use nexus_spark_lib.Models.Materialization.{MaterializationRuntimeConfig}
use nexus_spark_lib.Models.Survivorship.{SurvivorshipRuleSet}
use nexus_spark_lib.Broadcast.{
  Manager, Refresh, done, refresh_error, Load, refresh_policy, refresh_survivorship, initialise,
  ◌>>=◌, is_stale, refresh_if_stale, invalidate_policy, new_manager,
}

abbrev pub state_of : Refresh → Manager
state_of (done m) = m
state_of (refresh_error m) = m

-- A broadcast is loaded exactly if its instant is known.
pub record IsPaired (m : Manager) : Type 0 where
  pub policy : is_some m.policy_bc ≡ is_some m.policy_loaded_at
  pub survivorship : is_some m.survivorship_bc ≡ is_some m.survivorship_loaded_at

-- Loaded at the refresh, or not longer ago than its time to live.
abbrev pub IsFresh : ℕ → ℕ → ℕ → Option ℕ → Type 0
IsFresh now ttl at none = ⊥
IsFresh now ttl at (some loaded_at) = (loaded_at ≡ at) ⊎ (now - loaded_at ≤ ttl)

stale-IsFresh : (now ttl at : ℕ) (o : Option ℕ) → is_stale now ttl o ≡ false → IsFresh now ttl at o
stale-IsFresh now ttl at none h = cc
stale-IsFresh now ttl at (some loaded_at) h = inr (ground (arith, h))

module _ (now policy_ttl surv_ttl : ℕ) (policy : Load MaterializationRuntimeConfig)
    (survivorship : Load SurvivorshipRuleSet) where
  -- What a refresh may do to a manager.
  abbrev pub IsRefreshed : Manager → Refresh → Type 0
  IsRefreshed m (done after) =
      IsFresh now policy_ttl policy.at after.policy_loaded_at
      × IsFresh now surv_ttl survivorship.at after.survivorship_loaded_at
  IsRefreshed m (refresh_error after) =
      (after.survivorship_bc ≡ m.survivorship_bc)
      × (after.survivorship_loaded_at ≡ m.survivorship_loaded_at)
      × ((after ≡ m) ⊎ IsFresh now policy_ttl policy.at after.policy_loaded_at)

  second :
      (m after : Manager)
      → IsFresh now policy_ttl policy.at after.policy_loaded_at
      → after.survivorship_bc ≡ m.survivorship_bc
      → after.survivorship_loaded_at ≡ m.survivorship_loaded_at
      → IsRefreshed m (
          if is_stale now surv_ttl after.survivorship_loaded_at
          then refresh_survivorship survivorship after
          else done after)
  unfolding refresh_survivorship
  second m after f p q = elim (Bool-cases (is_stale now surv_ttl after.survivorship_loaded_at)) [
    | inr e ↦ rw e (f, stale-IsFresh now surv_ttl survivorship.at after.survivorship_loaded_at e)
    | inl e ↦ elim (Option-cases survivorship.loaded) [
      | inl n ↦ rw (e, n) (p, q, inr f)
      | inr (rules, n) ↦ rw (e, n) (f, inl refl)
    ]
  ]

  -- A refresh per batch that is done leaves each broadcast either loaded by this refresh or not
  -- older than its time to live at the instant of the check. One that fails leaves the survivorship
  -- broadcast as it was, and either leaves the whole manager as it was or has a policy that is
  -- fresh.
  pub refresh_if_stale-IsRefreshed :
      (m : Manager) → IsRefreshed m (refresh_if_stale now policy_ttl surv_ttl policy survivorship m)
  unfolding refresh_if_stale refresh_policy
  refresh_if_stale-IsRefreshed m = elim (Bool-cases (is_stale now policy_ttl m.policy_loaded_at)) [
    | inr e ↦
        rw e (second m m (stale-IsFresh now policy_ttl policy.at m.policy_loaded_at e) refl refl)
    | inl e ↦ elim (Option-cases policy.loaded) [
      | inl n ↦ rw (e, n) (refl, refl, inl refl)
      | inr (config, n) ↦
          rw (e, n)
            (second m (record m { policy_bc = some config; policy_loaded_at = some policy.at })
              (inl refl) refl refl)
    ]
  ]

-- The operations of a manager, with what their loads return.
pub data Operation : Type 0 where
  initialised : Load MaterializationRuntimeConfig → Load SurvivorshipRuleSet → Operation
  batch :
      (now policy_ttl surv_ttl : ℕ)
      → Load MaterializationRuntimeConfig
      → Load SurvivorshipRuleSet
      → Operation
  invalidated : Load MaterializationRuntimeConfig → Operation

abbrev pub perform : Operation → Manager → Refresh
perform (initialised policy survivorship) m = initialise policy survivorship m
perform (batch now policy_ttl surv_ttl policy survivorship) m =
    refresh_if_stale now policy_ttl surv_ttl policy survivorship m
perform (invalidated policy) m = invalidate_policy policy m

-- A caller that goes on after errors.
unfoldable pub run : List Operation → Manager → Manager
unfolding initialise refresh_if_stale invalidate_policy
run [] m = m
run (o ∷ os) m = run os (state_of (perform o m))

-- Both broadcasts are there.
abbrev pub IsReady : Manager → Type 0
IsReady m = (is_some m.policy_bc ≡ true) × (is_some m.survivorship_bc ≡ true)

-- What every refresh keeps: that a broadcast is there, and that it is paired with its instant.
abbrev Keeps : Manager → Manager → Type 0
Keeps m after =
    (is_some m.policy_bc ≡ true → is_some after.policy_bc ≡ true)
    × (is_some m.survivorship_bc ≡ true → is_some after.survivorship_bc ≡ true)
    × (IsPaired m → IsPaired after)

Keeps-trans : (a b c : Manager) → Keeps a b → Keeps b c → Keeps a c
Keeps-trans a b c (p, q, r) (p', q', r') = ((λ h. p' (p h)), (λ h. q' (q h)), (λ h. r' (r h)))

Keeps-refl : (m : Manager) → Keeps m m
Keeps-refl m = ((λ h. h), (λ h. h), (λ h. h))

refresh_policy-Keeps :
    (load : Load MaterializationRuntimeConfig) (m : Manager)
    → Keeps m (state_of (refresh_policy load m))
unfolding refresh_policy
refresh_policy-Keeps load m = elim (Option-cases load.loaded) [
  | inl n ↦ rw n (Keeps-refl m)
  | inr (config, n) ↦
      rw n ((λ h. refl), (λ h. h), (λ h. record { policy = refl; survivorship = h.survivorship }))
]

refresh_survivorship-Keeps :
    (load : Load SurvivorshipRuleSet) (m : Manager)
    → Keeps m (state_of (refresh_survivorship load m))
unfolding refresh_survivorship
refresh_survivorship-Keeps load m = elim (Option-cases load.loaded) [
  | inl n ↦ rw n (Keeps-refl m)
  | inr (rules, n) ↦
      rw n ((λ h. h), (λ h. refl), (λ h. record { policy = h.policy; survivorship = refl }))
]

then-Keeps :
    (m : Manager) (r : Refresh) (f : Manager → Refresh)
    → Keeps m (state_of r)
    → ((a : Manager) → Keeps a (state_of (f a)))
    → Keeps m (state_of (r >>= f))
then-Keeps m (done a) f h k = Keeps-trans m a (state_of (f a)) h (k a)
then-Keeps m (refresh_error a) f h k = h

unless-Keeps :
    (b : Bool) (m : Manager) (r : Refresh)
    → Keeps m (state_of r)
    → Keeps m (state_of (if b then r else done m))
unless-Keeps true m r h = h
unless-Keeps false m r h = Keeps-refl m

perform-Keeps : (o : Operation) (m : Manager) → Keeps m (state_of (perform o m))
unfolding initialise refresh_if_stale invalidate_policy
perform-Keeps (initialised policy survivorship) m =
    then-Keeps m (refresh_policy policy m) (refresh_survivorship survivorship)
      (refresh_policy-Keeps policy m) (refresh_survivorship-Keeps survivorship)
perform-Keeps (batch now policy_ttl surv_ttl policy survivorship) m =
    then-Keeps m
      (if is_stale now policy_ttl m.policy_loaded_at then refresh_policy policy m else done m)
      (λ a.
        if is_stale now surv_ttl a.survivorship_loaded_at
        then refresh_survivorship survivorship a
        else done a)
      (unless-Keeps (is_stale now policy_ttl m.policy_loaded_at) m (refresh_policy policy m)
        (refresh_policy-Keeps policy m))
      (λ a.
        unless-Keeps (is_stale now surv_ttl a.survivorship_loaded_at) a
          (refresh_survivorship survivorship a) (refresh_survivorship-Keeps survivorship a))
perform-Keeps (invalidated policy) m = refresh_policy-Keeps policy m

run-Keeps : (os : List Operation) (m : Manager) → Keeps m (run os m)
unfolding run
run-Keeps [] m = Keeps-refl m
run-Keeps (o ∷ os) m =
    Keeps-trans m (state_of (perform o m)) (run os (state_of (perform o m))) (perform-Keeps o m)
      (run-Keeps os _)

fresh-is_some : (now ttl at : ℕ) (o : Option ℕ) → IsFresh now ttl at o → is_some o ≡ true
fresh-is_some now ttl at none h = absurd h
fresh-is_some now ttl at (some loaded_at) h = refl

new_manager-IsPaired : IsPaired new_manager
new_manager-IsPaired = record { policy = refl; survivorship = refl }

-- After any operations of a new manager, failed loads among them: as soon as one refresh per batch
-- is done without an error, both broadcasts are served, and they stay served after whatever
-- operations follow, failed ones too.
pub run-IsReady :
    (earlier later : List Operation) (now policy_ttl surv_ttl : ℕ)
    (policy : Load MaterializationRuntimeConfig) (survivorship : Load SurvivorshipRuleSet)
    (after : Manager)
    → refresh_if_stale now policy_ttl surv_ttl policy survivorship (run earlier new_manager)
      ≡ done after
    → IsReady (run later after)
run-IsReady earlier later now policy_ttl surv_ttl policy survivorship after e =
    let m = run earlier new_manager in
    let paired =
      subst (λ r. IsPaired (state_of r)) e
        ((perform-Keeps (batch now policy_ttl surv_ttl policy survivorship) m).2
          ((run-Keeps earlier new_manager).2 new_manager-IsPaired)) in
    let fresh =
      subst (IsRefreshed now policy_ttl surv_ttl policy survivorship m) e
        (refresh_if_stale-IsRefreshed now policy_ttl surv_ttl policy survivorship m) in
    let kept = run-Keeps later after in
    (
      kept.0
          (paired.policy ∙ fresh-is_some now policy_ttl policy.at after.policy_loaded_at fresh.0),
      kept.1 (
          paired.survivorship
          ∙ fresh-is_some now surv_ttl survivorship.at after.survivorship_loaded_at fresh.1),
    )
