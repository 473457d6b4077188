-- ===== src/Service/Identities.antt =====
-- The life of an identity token: what authenticates while it lasts, and what containment ends.
use mathlib.Core.Path.{subst}
use agent_containment.Base.{
  ℕ, ◌≡◌, refl, sym, ◌∙◌, ◌⊎◌, inl, inr, String, Bool, true, false, Option, none, some, Result, ok,
  ok-injective, arith, Bool-cases, Option-cases, is_empty, is_some, eq_refl, ℤ, ◌==◌,
}
use agent_containment.Base.Dict.{insert, lookup-insert_self}
use agent_containment.Runtime.{Ref}
use agent_containment.Service.{Env, Service, ManagedAgent, managed}
use agent_containment.Service.Contain.{contain}
use agent_containment.Service.Authorize.{
  Credentials, authenticated, token_matches, pid_matches, same_number,
}
use agent_containment.Service.Fencing.{contain_fences_agent}
use agent_containment.Service.Workloads.{issue_identity_token, bad_pid, pid_of}

some-value : {A : Type 0} (o : Option A) → is_some o ≡ true → (a : A) × (o ≡ some a)
some-value none h = ground (arith, h)
some-value (some a) h = (a, refl)

==-refl : (n : ℕ) → (n == n) ≡ true
==-refl n = ground arith

token_matches-none :
    (digest : String → String) (t : Option String) → token_matches digest t none ≡ false
unfolding token_matches
token_matches-none digest none = refl
token_matches-none digest (some t) = refl

module _ {W : Type 0} (digest : String → String) where
  -- What `authorize` asks of a caller, where the agent's identity is the token's digest.
  abbrev pub caller : String → ℕ → (ℕ → String → W → Bool × W) → Credentials W
  caller token pid membership = record {
    token = some token;
    peer_pid = some pid;
    membership = some membership;
  }

  issue-Issued :
      (token agent_id : String) (peer : Option ℤ) (s : Service W) (t : String)
      → (issue_identity_token digest token agent_id peer s).0 ≡ ok t
      → (m : ManagedAgent W) × (t ≡ token)
        × (managed agent_id s ≡ some m)
        × (is_some m.identity_cgroup ≡ true)
        × (issue_identity_token digest token agent_id peer s ≡ (
          ok token,
          record s {
            agents =
                insert agent_id
                  (record m { identity_digest = some (digest token); identity_pid = pid_of peer })
                  s.agents;
          },
        ))
  unfolding issue_identity_token
  issue-Issued token agent_id peer s t h = elim (Bool-cases (bad_pid peer)) [
    | inl y ↦ cc (rw (y, issue_identity_token) at h)
    | inr f ↦ elim (Option-cases (managed agent_id s)) [
      | inl n ↦ cc (rw (f, issue_identity_token, n) at h)
      | inr (m, e) ↦ elim (Bool-cases (is_some m.identity_cgroup)) [
        | inr g ↦ cc (rw (f, issue_identity_token, e, g) at h)
        | inl y ↦
            let k : ◌≡◌ {A = Result String} (ok token) (ok t) =
              rw (f, issue_identity_token, e, y) at h in
            (m, sym (ok-injective k), e, y, rw (f, issue_identity_token, e, y) refl)
      ]
    ]
  ]

  authenticated-issued :
      (token path : String) (pid : ℕ) (peer : Option ℤ) (m : ManagedAgent W)
      (membership : ℕ → String → W → Bool × W) (w : W)
      → is_empty token ≡ false
      → m.identity_digest ≡ some (digest token)
      → m.identity_pid ≡ pid_of peer
      → (pid_of peer ≡ none) ⊎ (pid_of peer ≡ some pid)
      → m.identity_cgroup ≡ some path
      → authenticated digest (caller token pid membership) m w ≡ membership pid path w
  unfolding authenticated token_matches pid_matches same_number
  authenticated-issued token path pid peer m membership w n d p (inl q) c =
      rw (d, authenticated, p ∙ q, c, n, eq_refl (digest token)) refl
  authenticated-issued token path pid peer m membership w n d p (inr q) c =
      rw (d, authenticated, p ∙ q, c, n, eq_refl (digest token), ==-refl pid) refl

  -- The agent authenticates with the token: whatever it presents to `authorize` with it is decided by
  -- the predicate on the membership of its process in its cgroup alone.
  abbrev pub Authenticates : String → String → ℕ → Service W → Type 0
  Authenticates agent_id token pid s =
      (m : ManagedAgent W) × (path : String) × (managed agent_id s ≡ some m)
      × (m.identity_cgroup ≡ some path)
      × ((membership : ℕ → String → W → Bool × W) (w : W)
          → authenticated digest (caller token pid membership) m w ≡ membership pid path w)

  -- A token that is not empty, and was issued for any process or for the process that presents it,
  -- authenticates its agent if that process is in the agent's cgroup.
  pub issued-Authenticates :
      (token agent_id : String) (peer : Option ℤ) (pid : ℕ) (s : Service W) (t : String)
      → (issue_identity_token digest token agent_id peer s).0 ≡ ok t
      → is_empty token ≡ false
      → (pid_of peer ≡ none) ⊎ (pid_of peer ≡ some pid)
      → Authenticates agent_id t pid (issue_identity_token digest token agent_id peer s).1
  issued-Authenticates token agent_id peer pid s t h n either =
      let (m, same, there, cgroup, e) = issue-Issued token agent_id peer s t h in
      let (path, c) = some-value m.identity_cgroup cgroup in
      let m' : ManagedAgent W = record m {
        identity_digest = some (digest token);
        identity_pid = pid_of peer;
      } in
      subst
        (λ z. Authenticates agent_id z pid (issue_identity_token digest token agent_id peer s).1)
        (sym same)
        (subst (λ r. Authenticates agent_id token pid r.1) (sym e)
          (
            m',
            path,
            lookup-insert_self agent_id m' s.agents,
            c,
            λ membership w.
                authenticated-issued token path pid peer m' membership w n refl refl either c,
          ))

  -- After its agent was contained, by whatever outcome, no token authenticates it: neither the
  -- membership nor anything else is asked.
  pub contained-unauthenticated :
      (env : Env W) (fresh : Ref) (agent_id : String) (m : ManagedAgent W) (s : Service W)
      → is_empty agent_id ≡ false
      → managed agent_id s ≡ some m
      → (m' : ManagedAgent W) × (managed agent_id (contain env fresh agent_id s).1 ≡ some m')
        × ((c : Credentials W) (w : W) → authenticated digest c m' w ≡ (false, w))
  unfolding authenticated
  contained-unauthenticated env fresh agent_id m s named there =
      let (m', e, fenced) = (contain_fences_agent env fresh agent_id m s named there).0 in
      (m', e, λ c w. rw (fenced.no_identity, authenticated, token_matches-none digest c.token) refl)
