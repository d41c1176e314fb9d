-- ===== src/Monitor/Nodes.antt =====
-- core/src/monitor.rs: the set of nodes, and what a round of the loop reads of it.
use open_coroutine.Prelude.{
  ℕ, suc, ◌≤◌, ◌≡◌, ◌≢◌, ◌↔◌, Bool, true, false, List, [], ◌∷◌, arith, ◌==◌, not, ltb, inl, inr,
  Bool-cases, ap, refl, if◌then◌else◌,
}
use open_coroutine.Monitor.{NotifyNode, same, contains, insert_node, remove_node, sweep}

pub same_iff : (n m : NotifyNode) → (same n m ≡ true) ↔ (n ≡ m)
same_iff n m = ground arith

pub contains-insert_node :
    (n k : NotifyNode) (q : List NotifyNode)
    → contains k (insert_node n q) ≡ (if same n k then true else contains k q)
unfolding contains insert_node
contains-insert_node n k q = elim (Bool-cases (same n k)) [
  | inl e ↦ let p = (same_iff n k).0 e in ground (arith, p, ap (λ (j : NotifyNode). contains j q) p)
  | inr e ↦ ground arith
]

pub contains-remove_node :
    (n k : NotifyNode) (q : List NotifyNode)
    → contains k (remove_node n q) ≡ (if same n k then false else contains k q)
unfolding contains remove_node
contains-remove_node n k [] = ground arith
contains-remove_node n k (m ∷ q) = ground (arith, contains-remove_node n k q)

abbrev pub signalled : ℕ → List ℕ → Bool
signalled t [] = false
signalled t (u ∷ us) = if u == t then true else signalled t us

-- A node that is due at the earliest reading is acted on.
pub sweep-due :
    (clock : ℕ → ℕ) (now : ℕ)
    → ((i : ℕ) → now ≤ clock i)
    → (i : ℕ) (q : List NotifyNode) (n : NotifyNode) → contains n q ≡ true
    → n.timestamp ≤ now
    → signalled n.pthread (sweep clock i q) ≡ true
unfolding contains sweep
sweep-due clock now h i [] n c d = ground (arith, c)
sweep-due clock now h i (m ∷ q) n c d = ground (arith, h i, sweep-due clock now h (suc i) q n)

-- A node that the loop passes over, or that is another thread's.
abbrev later_or_other : (ℕ → ℕ) → ℕ → NotifyNode → ℕ → Bool
later_or_other clock i m t = if ltb (clock i) m.timestamp then true else not (m.pthread == t)

-- Only nodes that are due at the latest reading are acted on.
pub sweep-only_due :
    (clock : ℕ → ℕ) (now : ℕ)
    → ((i : ℕ) → clock i ≤ now)
    → (i : ℕ) (q : List NotifyNode) (t : ℕ) → signalled t (sweep clock i q) ≡ true
    → (n : NotifyNode) × (contains n q ≡ true) × (n.timestamp ≤ now) × (n.pthread ≡ t)
unfolding contains sweep
sweep-only_due clock now h i [] t s = absurd (ground (arith, s))
sweep-only_due clock now h i (m ∷ q) t s = elim (Bool-cases (later_or_other clock i m t)) [
  | inl skip ↦
      let (n, c, d, e) = sweep-only_due clock now h (suc i) q t (ground arith) in
      (n, ground (arith, c), d, e)
  | inr act ↦ (m, ground arith, ground (arith, h i), ground arith)
]

pub nil_of_none_contained :
    (q : List NotifyNode) → ((n : NotifyNode) → contains n q ≢ true) → q ≡ []
unfolding contains
nil_of_none_contained [] h = refl
nil_of_none_contained (m ∷ q) h = absurd (h m (ground arith))

pub not-contains_of_nil : (n : NotifyNode) (q : List NotifyNode) → q ≡ [] → contains n q ≢ true
unfolding contains
not-contains_of_nil n [] e c = cc
not-contains_of_nil n (m ∷ q) e c = cc
