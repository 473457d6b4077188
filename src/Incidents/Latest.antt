-- ===== src/Incidents/Latest.antt =====
-- `latest_for_agent` against what it is meant to find.
use mathlib.Core.Path.{subst}
use agent_containment.Base.{
  ◌≤◌, ◌≡◌, ◌≢◌, ◌⊎◌, ◌↔◌, inl, inr, refl, String, Bool, true, false, none, some, List, [], ◌∷◌, ok,
  arith, ◌=s◌, eq_iff, Option-cases, ltb, is_empty, if◌then◌else◌,
}
use agent_containment.Durable.{values}
use agent_containment.Incidents.{
  IncidentRecord, IncidentRegistry, of_agent, max_from, latest_of, latest_for_agent, all,
}

-- The record stands in the list.
abbrev pub IsIn : IncidentRecord → List IncidentRecord → Type 0
IsIn r [] = ⊥
IsIn r (q ∷ qs) = (q ≡ r) ⊎ IsIn r qs

found-IsIn :
    (b : Bool) (a : String) (r q : IncidentRecord) (rest found : List IncidentRecord)
    → ((b ≡ true) ↔ (q.agent_id ≡ a))
    → IsIn r found ↔ (IsIn r rest × (r.agent_id ≡ a))
    → IsIn r (if b then q ∷ found else found) ↔ (IsIn r (q ∷ rest) × (r.agent_id ≡ a))
found-IsIn true a r q rest found same ih = (
  elim [ inl e ↦ (inl e, rw (← e) (same.0 refl)) | inr m ↦ let (n, o) = ih.0 m in (inr n, o) ],
  λ h. keep h.0 h.1,
)
  where
    keep : (q ≡ r) ⊎ IsIn r rest → r.agent_id ≡ a → (q ≡ r) ⊎ IsIn r found
    keep (inl e) n = inl e
    keep (inr m) n = inr (ih.1 (m, n))
found-IsIn false a r q rest found same ih =
    (λ m. let (n, o) = ih.0 m in (inr n, o), λ h. keep h.0 h.1)
  where
    keep : (q ≡ r) ⊎ IsIn r rest → r.agent_id ≡ a → IsIn r found
    keep (inl e) n = absurd (ground (arith, same))
    keep (inr m) n = ih.1 (m, n)

IsIn-of_agent :
    (a : String) (r : IncidentRecord) (rs : List IncidentRecord)
    → IsIn r (of_agent a rs) ↔ (IsIn r rs × (r.agent_id ≡ a))
unfolding of_agent
IsIn-of_agent a r [] = (λ h. absurd h, λ h. absurd h.0)
IsIn-of_agent a r (q ∷ qs) =
    found-IsIn (q.agent_id =s a) a r q qs (of_agent a qs) (eq_iff q.agent_id a)
      (IsIn-of_agent a r qs)

-- `m` is one of `best` and the list, and none of these is later.
abbrev IsBest : IncidentRecord → IncidentRecord → List IncidentRecord → Type 0
IsBest m best rs =
    ((best ≡ m) ⊎ IsIn m rs)
    × (best.created_at ≤ m.created_at)
    × ((q : IncidentRecord) → IsIn q rs → q.created_at ≤ m.created_at)

IsBest-extend :
    (m best r : IncidentRecord) (rs : List IncidentRecord) (b : Bool)
    → ltb best.created_at r.created_at ≡ b
    → IsBest m (if b then r else best) rs
    → IsBest m best (r ∷ rs)
IsBest-extend m best r rs true e h = (inr h.0, ground arith, others)
  where
    others : (q : IncidentRecord) → IsIn q (r ∷ rs) → q.created_at ≤ m.created_at
    others q (inl p) = rw (← p) h.1
    others q (inr n) = h.2 q n
IsBest-extend m best r rs false e h = (placed h.0, h.1, others)
  where
    placed : (best ≡ m) ⊎ IsIn m rs → (best ≡ m) ⊎ IsIn m (r ∷ rs)
    placed (inl p) = inl p
    placed (inr n) = inr (inr n)

    others : (q : IncidentRecord) → IsIn q (r ∷ rs) → q.created_at ≤ m.created_at
    others q (inl p) = let le = h.1 in rw (← p) (ground arith)
    others q (inr n) = h.2 q n

max_from-IsBest :
    (best : IncidentRecord) (rs : List IncidentRecord) → IsBest (max_from best rs) best rs
unfolding max_from
max_from-IsBest best [] = (inl refl, omega arith, λ q h. absurd h)
max_from-IsBest best (r ∷ rs) =
    let later = ltb best.created_at r.created_at in
    IsBest-extend (max_from (if later then r else best) rs) best r rs later refl
      (max_from-IsBest (if later then r else best) rs)

latest_of-none :
    (rs : List IncidentRecord) → latest_of rs ≡ none → (r : IncidentRecord) → ¬ IsIn r rs
unfolding latest_of
latest_of-none [] h r m = m
latest_of-none (q ∷ qs) h r m = cc

latest_of-some :
    (rs : List IncidentRecord) (r : IncidentRecord)
    → latest_of rs ≡ some r
    → IsIn r rs × ((q : IncidentRecord) → IsIn q rs → q.created_at ≤ r.created_at)
unfolding latest_of
latest_of-some [] r h = ground arith
latest_of-some (q ∷ qs) r h =
    let e : max_from q qs ≡ r = ground arith in
    let best : IsBest r q qs = subst (λ m. IsBest m q qs) e (max_from-IsBest q qs) in
    (best.0, λ p. elim [ inl f ↦ rw (← f) best.1 | inr m ↦ best.2 p m ])

-- For an agent that has a name: `latest_for_agent` returns `None` only if no incident is the
-- agent's, and otherwise an incident of the agent that is no older than any of the agent's.
pub latest_for_agent_lem :
    (a : String) (s : IncidentRegistry)
    → is_empty a ≡ false
    → ((latest_for_agent a s ≡ ok none) × ((r : IncidentRecord) → IsIn r (all s) → r.agent_id ≢ a))
      ⊎ ((r : IncidentRecord) × (latest_for_agent a s ≡ ok (some r))
          × IsIn r (all s)
          × (r.agent_id ≡ a)
          × ((q : IncidentRecord) → IsIn q (all s) → q.agent_id ≡ a → q.created_at ≤ r.created_at))
unfolding latest_for_agent all
latest_for_agent_lem a s named = elim (Option-cases (latest_of (of_agent a (values s.records)))) [
  | inl e ↦ inl (
    rw (named, e),
    λ r m n.
        latest_of-none (of_agent a (values s.records)) e r
          ((IsIn-of_agent a r (values s.records)).1 (m, n)),
  )
  | inr (r, e) ↦
      let (m, top) = latest_of-some (of_agent a (values s.records)) r e in
      let (there, own) = (IsIn-of_agent a r (values s.records)).0 m in
      inr (
        r,
        rw (named, e),
        there,
        own,
        λ q n o. top q ((IsIn-of_agent a q (values s.records)).1 (n, o)),
      )
]
