-- ===== src/Review/Signals.antt =====
-- What reading a verifier's signal promises.
use agent_containment.Base.{
  ◌∙◌, ◌≤◌, Bool-cases, ap, ℕ, ℤ, ◌⊎◌, some, List, [], ◌∷◌, map, is_empty, refl, ◌≡◌, inl, inr,
  String, false, Option, none, arith, pos, negsuc, eq_iff, Result, ok, bind_returned, ok-injective,
  Option-cases,
}
use mathlib.Core.Path.{subst, sym}
use agent_containment.Base.Dict.{Dict, lookup}
use agent_containment.Review.{
  VerificationSignal, Value, signal_refusal, checked_signal, required_string, non_negative_int,
  strings, optional_text, from_mapping, all_texts, exceeds,
}

-- What a field of a signal is, by what stands under its key in the mapping.
abbrev pub Text : String → Dict Value → String → Type 0
Text key m s = (lookup key m ≡ some (Value.text s)) × (is_empty s ≡ false)

abbrev pub Count : String → ℕ → Dict Value → ℕ → Type 0
Count key default m n =
    ((lookup key m ≡ none) × (n ≡ default)) ⊎ (lookup key m ≡ some (Value.integer (pos n)))

unfoldable pub NonEmpty : List String → Type 0
NonEmpty [] = Unit
NonEmpty (t ∷ ts) = (is_empty t ≡ false) × NonEmpty ts

abbrev pub Texts : String → Dict Value → List String → Type 0
Texts key m ts =
    ((lookup key m ≡ none) × (ts ≡ []))
    ⊎ ((lookup key m ≡ some (Value.items (map (λ t. some t) ts))) × NonEmpty ts)

abbrev pub Given : String → Dict Value → Option String → Type 0
Given key m none = (lookup key m ≡ none) ⊎ (lookup key m ≡ some Value.nothing)
Given key m (some t) = Text key m t

abbrev pub Known : String → Type 0
Known d = (d ≡ "allow") ⊎ ((d ≡ "requireReview") ⊎ (d ≡ "block"))

pub record ReadFrom (m : Dict Value) (s : VerificationSignal) : Type 0 where
  pub disposition : Text "disposition" m s.disposition
  pub known : Known s.disposition
  pub report : Text "reportFingerprint" m s.report_fingerprint
  pub policy : Text "policyFingerprint" m s.policy_fingerprint
  pub blocking : Texts "blockingClaimIDs" m s.blocking_claim_ids
  pub review : Texts "reviewClaimIDs" m s.review_claim_ids
  pub supported : ℕ
  pub total : ℕ
  pub supported_read :
      (s.supported_claim_count ≡ pos supported) × Count "supportedClaimCount" 0 m supported
  pub total_read : (s.total_claim_count ≡ pos total) × Count "totalClaimCount" 0 m total
  pub at_most : supported ≤ total
  pub version : (v : ℕ) × (s.version ≡ pos v) × Count "version" 1 m v
  pub trace : Given "traceID" m s.trace_id
  pub run : Given "runID" m s.run_id
  pub action : Given "actionID" m s.action_id

checked_signal-ok :
    (s t : VerificationSignal) → checked_signal s ≡ ok t → (t ≡ s) × (signal_refusal s ≡ none)
unfolding checked_signal
checked_signal-ok s t h = elim (Option-cases (signal_refusal s)) [
  | inl n ↦
      let k : ◌≡◌ {A = Result VerificationSignal} (ok s) (ok t) = rw (n, checked_signal) at h in
      (cc k, n)
  | inr (m, e) ↦ cc (rw (e, checked_signal) at h)
]

required_string-Text :
    (key : String) (m : Dict Value) (s : String) → required_string key m ≡ ok s → Text key m s
unfolding required_string
required_string-Text key m s h = ground arith

non_negative_int-Count :
    (key : String) (m : Dict Value) (d : ℕ) (n : ℤ)
    → non_negative_int key (pos d) m ≡ ok n
    → (v : ℕ) × (n ≡ pos v) × Count key d m v
unfolding non_negative_int
non_negative_int-Count key m d n h = elim (Option-cases (lookup key m)) [
  | inl e ↦ (d, ground (arith, e, h), inl (e, refl))
  | inr (Value.integer (pos v), e) ↦ (v, ground (arith, e, h), inr e)
  | inr (Value.integer (negsuc v), e) ↦ ground (arith, e, h)
  | inr (Value.nothing, e) ↦ ground (arith, e, h)
  | inr (Value.text u, e) ↦ ground (arith, e, h)
  | inr (Value.items u, e) ↦ ground (arith, e, h)
  | inr (Value.other, e) ↦ ground (arith, e, h)
]

all_texts-Every :
    (xs : List (Option String)) (ts : List String)
    → all_texts xs ≡ some ts
    → (map (λ t. some t) ts ≡ xs) × NonEmpty ts
unfolding all_texts NonEmpty
all_texts-Every [] [] h = (refl, tt)
all_texts-Every [] (t ∷ ts) h = cc h
all_texts-Every (none ∷ xs) ts h = cc h
all_texts-Every (some t ∷ xs) ts h = elim (Bool-cases (is_empty t)) [
  | inl y ↦ cc (rw (y, all_texts) at h)
  | inr f ↦ elim (Option-cases (all_texts xs)) [
    | inl n ↦ cc (rw (f, all_texts, n) at h)
    | inr (us, e) ↦
        let (same, full) = all_texts-Every xs us e in
        let g : some (t ∷ us) ≡ some ts = rw (f, all_texts, e) at h in
        let q : (t ∷ us) ≡ ts = cc g in
        subst (λ z. (map (λ u. some u) z ≡ (some t ∷ xs)) × NonEmpty z) q
          (ap (λ z. some t ∷ z) same, (f, full))
  ]
]

strings-Texts :
    (key : String) (m : Dict Value) (ts : List String) → strings key m ≡ ok ts → Texts key m ts
unfolding strings
strings-Texts key m ts h = elim (Option-cases (lookup key m)) [
  | inl n ↦ inl (n, ground (arith, n, h))
  | inr (Value.items xs, e) ↦ elim (Option-cases (all_texts xs)) [
    | inl n ↦ ground (arith, n, e, h)
    | inr (us, t) ↦
        let g : ◌≡◌ {A = Result (List String)} (ok us) (ok ts) = rw (e, strings, t) at h in
        let (same, full) = all_texts-Every xs us t in
        subst (λ z. Texts key m z) (ok-injective g)
          (inr (e ∙ ap (λ z. some (Value.items z)) (sym same), full))
  ]
  | inr (Value.nothing, e) ↦ ground (arith, e, h)
  | inr (Value.text u, e) ↦ ground (arith, e, h)
  | inr (Value.integer u, e) ↦ ground (arith, e, h)
  | inr (Value.other, e) ↦ ground (arith, e, h)
]

optional_text-Given :
    (name key : String) (m : Dict Value) (t : Option String)
    → optional_text name key m ≡ ok t
    → Given key m t
unfolding optional_text
optional_text-Given name key m t h = ground arith

-- The claim counts that pass the checks of the constructor.
signal_refusal-Counts :
    (s : VerificationSignal) (a b : ℕ)
    → signal_refusal s ≡ none
    → s.supported_claim_count ≡ pos a
    → s.total_claim_count ≡ pos b
    → a ≤ b
unfolding signal_refusal exceeds
signal_refusal-Counts s a b n p q = ground (arith, n, p, q)

signal_refusal-Known : (s : VerificationSignal) → signal_refusal s ≡ none → Known s.disposition
unfolding signal_refusal
signal_refusal-Known s n = ground (
  arith,
  n,
  eq_iff s.disposition "allow",
  eq_iff s.disposition "requireReview",
  eq_iff s.disposition "block",
)

-- Every signal that is read from a mapping has the values that stand in the mapping under the keys of
-- its fields, or the default where a key may be missing, and these are well formed: the disposition
-- is one of the three, the fingerprints, the claims and the texts that are given are not empty, and
-- the counts are natural, with no more claims supported than there are.
pub from_mapping-Valid :
    (m : Dict Value) (s : VerificationSignal) → from_mapping m ≡ ok s → ReadFrom m s
unfolding from_mapping
from_mapping-Valid m s h =
    let (version, r1, h1) = bind_returned (non_negative_int "version" (pos 1) m) _ h in
    let (disposition, r2, h2) = bind_returned (required_string "disposition" m) _ h1 in
    let (report, r3, h3) = bind_returned (required_string "reportFingerprint" m) _ h2 in
    let (policy, r4, h4) = bind_returned (required_string "policyFingerprint" m) _ h3 in
    let (blocking, r5, h5) = bind_returned (strings "blockingClaimIDs" m) _ h4 in
    let (review, r6, h6) = bind_returned (strings "reviewClaimIDs" m) _ h5 in
    let (supported, r7, h7) =
      bind_returned (non_negative_int "supportedClaimCount" (pos 0) m) _ h6 in
    let (total, r8, h8) = bind_returned (non_negative_int "totalClaimCount" (pos 0) m) _ h7 in
    let start : VerificationSignal = record {
      disposition = disposition;
      report_fingerprint = report;
      policy_fingerprint = policy;
      blocking_claim_ids = blocking;
      review_claim_ids = review;
      supported_claim_count = supported;
      total_claim_count = total;
      trace_id = none;
      run_id = none;
      action_id = none;
      version = version;
    } in
    let (base, b, h9) = bind_returned (checked_signal start) _ h8 in
    let (trace, t, h10) = bind_returned (optional_text "trace_id" "traceID" m) _ h9 in
    let (run, r, h11) = bind_returned (optional_text "run_id" "runID" m) _ h10 in
    let (action, a', h12) = bind_returned (optional_text "action_id" "actionID" m) _ h11 in
    let e : record base { trace_id = trace; run_id = run; action_id = action } ≡ s =
      ok-injective h12 in
    let (same, accepted) = checked_signal-ok start base b in
    let (a, pa, ca) = non_negative_int-Count "supportedClaimCount" m 0 supported r7 in
    let (z, pz, cz) = non_negative_int-Count "totalClaimCount" m 0 total r8 in
    subst (λ t. ReadFrom m t) e
      (subst (λ t. ReadFrom m (record t { trace_id = trace; run_id = run; action_id = action }))
        (sym same)
        (record {
          disposition = required_string-Text "disposition" m disposition r2;
          known = signal_refusal-Known start accepted;
          report = required_string-Text "reportFingerprint" m report r3;
          policy = required_string-Text "policyFingerprint" m policy r4;
          blocking = strings-Texts "blockingClaimIDs" m blocking r5;
          review = strings-Texts "reviewClaimIDs" m review r6;
          supported = a;
          total = z;
          supported_read = (pa, ca);
          total_read = (pz, cz);
          at_most = signal_refusal-Counts start a z accepted pa pz;
          version = non_negative_int-Count "version" m 1 version r1;
          trace = optional_text-Given "trace_id" "traceID" m trace t;
          run = optional_text-Given "run_id" "runID" m run r;
          action = optional_text-Given "action_id" "actionID" m action a';
        }))
