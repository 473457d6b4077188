-- ===== src/Policy/Sequence.antt =====
-- The matching loops of the sequence rules against what they are meant to find: a subsequence, or
-- for consecutive rules a suffix.
use mathlib.Core.Bool.{false≢true}
use agent_containment.Base.{
  ◌&&◌, ℕ, zero, suc, ◌-◌, ◌≡◌, ◌≢◌, ◌↔◌, refl, sym, ap, ◌∙◌, String, Bool, true, false, some, List,
  [], ◌∷◌, ◌++◌, inl, inr, arith, ◌=s◌, eq_iff, Bool-cases, texts_eq, leb,
}
use agent_containment.Base.Lists.{length, drop, length-append, drop-append, texts_eq_iff}
use agent_containment.Policy.{SequenceRule, scan, scan_sequence, rule_matches, last_items}

-- The items of the first list stand in the second, in order, with anything between them.
pub data Subsequence : List String → List String → Type 0 where
  done : {c : List String} → Subsequence [] c
  take : {s c : List String} (x : String) → Subsequence s c → Subsequence (x ∷ s) (x ∷ c)
  skip : {s c : List String} (x : String) → Subsequence s c → Subsequence s (x ∷ c)

Subsequence-tail : {n : String} {s c : List String} → Subsequence (n ∷ s) c → Subsequence s c
Subsequence-tail (take x h) = skip x h
Subsequence-tail (skip x h) = skip x (Subsequence-tail h)

-- The greedy step: a match of the head may be taken wherever it stands.
Subsequence-take :
    {n : String} {s c : List String} (m : String) → Subsequence (n ∷ s) (m ∷ c) → Subsequence s c
Subsequence-take m (take x h) = h
Subsequence-take m (skip x h) = Subsequence-tail h

Subsequence-skip :
    {n : String} {s c : List String} (m : String)
    → m ≢ n
    → Subsequence (n ∷ s) (m ∷ c)
    → Subsequence (n ∷ s) c
Subsequence-skip m d (take x h) = absurd (d refl)
Subsequence-skip m d (skip x h) = h

pub Subsequence-append :
    {s c : List String} (d : List String) → Subsequence s c → Subsequence s (c ++ d)
Subsequence-append d done = done
Subsequence-append d (take x h) = take x (Subsequence-append d h)
Subsequence-append d (skip x h) = skip x (Subsequence-append d h)

scan_sound :
    (n : String) (expected ops : List String)
    → scan (some n) expected ops ≡ true
    → Subsequence (n ∷ expected) ops
unfolding scan
scan_sound n expected [] h = absurd (false≢true h)
scan_sound n [] (op ∷ ops) h = elim (Bool-cases (op =s n)) [
  | inl e ↦ rw ((eq_iff op n).0 e) (take n done)
  | inr e ↦ skip op (scan_sound n [] ops (rw e at h))
]
scan_sound n (m ∷ expected) (op ∷ ops) h = elim (Bool-cases (op =s n)) [
  | inl e ↦ rw ((eq_iff op n).0 e) (take n (scan_sound m expected ops (rw e at h)))
  | inr e ↦ skip op (scan_sound n (m ∷ expected) ops (rw e at h))
]

scan_complete :
    (n : String) (expected ops : List String)
    → Subsequence (n ∷ expected) ops
    → scan (some n) expected ops ≡ true
unfolding scan
scan_complete n expected [] h = elim h [ ]
scan_complete n [] (op ∷ ops) h = elim (Bool-cases (op =s n)) [
  | inl e ↦ rw e
  | inr e ↦ rw e (scan_complete n [] ops (Subsequence-skip op (ground (arith, eq_iff op n)) h))
]
scan_complete n (m ∷ expected) (op ∷ ops) h = elim (Bool-cases (op =s n)) [
  | inl e ↦ rw e (scan_complete m expected ops (Subsequence-take op h))
  | inr e ↦
      rw e
        (scan_complete n (m ∷ expected) ops (Subsequence-skip op (ground (arith, eq_iff op n)) h))
]

-- A rule that allows gaps matches exactly where its sequence is a subsequence of the candidate.
pub scan_sequence_iff :
    (sequence candidate : List String)
    → sequence ≢ []
    → (scan_sequence sequence candidate ≡ true) ↔ Subsequence sequence candidate
unfolding scan_sequence
scan_sequence_iff [] candidate h = absurd (h refl)
scan_sequence_iff (n ∷ expected) candidate h =
    (scan_sound n expected candidate, scan_complete n expected candidate)

take_drop : (k : ℕ) (xs : List String) → (ys : List String) × (xs ≡ ys ++ drop k xs)
take_drop zero xs = ([], refl)
take_drop (suc k) [] = ([], refl)
take_drop (suc k) (x ∷ xs) = let (ys, e) = take_drop k xs in (x ∷ ys, ap (λ l. x ∷ l) e)

last_items-suc : (k : ℕ) (xs : List String) → last_items (suc k) xs ≡ drop (length xs - suc k) xs
unfolding last_items
last_items-suc k xs = ground arith

-- A list that ends in a given list, as the code takes its last items.
last_items-append :
    (before : List String) (n : String) (s : List String)
    → last_items (length (n ∷ s)) (before ++ (n ∷ s)) ≡ n ∷ s
last_items-append before n s =
    let e : length (before ++ (n ∷ s)) - suc (length s) ≡ length before =
      omega (arith, length-append before (n ∷ s)) in
    rw (last_items-suc, e) (drop-append before (n ∷ s))

suffix_of_last_items :
    (n : String) (s candidate : List String)
    → last_items (length (n ∷ s)) candidate ≡ n ∷ s
    → (before : List String) × (candidate ≡ before ++ (n ∷ s))
suffix_of_last_items n s candidate e =
    let (ys, f) = take_drop (length candidate - suc (length s)) candidate in
    (ys, f ∙ ap (λ l. ys ++ l) (sym (last_items-suc (length s) candidate) ∙ e))

abbrev ends_in : List String → List String → Bool
ends_in s candidate =
    leb (length s) (length candidate) && texts_eq (last_items (length s) candidate) s

ends_in_of_append :
    (n : String) (s before : List String) → ends_in (n ∷ s) (before ++ (n ∷ s)) ≡ true
ends_in_of_append n s before = ground (
  arith,
  length-append before (n ∷ s),
  last_items-append before n s,
  texts_eq_iff (last_items (length (n ∷ s)) (before ++ (n ∷ s))) (n ∷ s),
)

ends_in_iff :
    (s candidate : List String)
    → s ≢ []
    → (ends_in s candidate ≡ true) ↔ ((before : List String) × (candidate ≡ before ++ s))
ends_in_iff [] candidate h = absurd (h refl)
ends_in_iff (n ∷ s) candidate h = (
  λ e.
      suffix_of_last_items n s candidate
        ((texts_eq_iff (last_items (length (n ∷ s)) candidate) (n ∷ s)).0 (ground arith)),
  λ t. rw t.1 (ends_in_of_append n s t.0),
)

-- A consecutive rule matches exactly where the candidate ends in its sequence, which is not empty.
pub rule_matches-consecutive :
    (rule : SequenceRule) (candidate : List String)
    → rule.sequence ≢ []
    → rule.consecutive ≡ true
    → (rule_matches rule candidate ≡ true)
      ↔ ((before : List String) × (candidate ≡ before ++ rule.sequence))
unfolding rule_matches
rule_matches-consecutive rule candidate h c = rw c (ends_in_iff rule.sequence candidate h)

-- A rule that allows gaps matches exactly where its sequence, which is not empty, is a subsequence
-- of the candidate: unrelated operations in between do not hide it.
pub rule_matches-gaps :
    (rule : SequenceRule) (candidate : List String)
    → rule.sequence ≢ []
    → rule.consecutive ≡ false
    → (rule_matches rule candidate ≡ true) ↔ Subsequence rule.sequence candidate
unfolding rule_matches
rule_matches-gaps rule candidate h c = rw c (scan_sequence_iff rule.sequence candidate h)
