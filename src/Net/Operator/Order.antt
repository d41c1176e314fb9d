-- ===== src/Net/Operator/Order.antt =====
-- core/src/net/operator/linux/mod.rs: no entry is lost, and the backlog is cleaned in order.
use mathlib.Core.Path.{subst}
use open_coroutine.Prelude.{
  ℕ, suc, ◌≡◌, refl, sym, ◌∙◌, ap, Bool, true, false, some, List, [], ◌∷◌, ◌++◌, ◌⊎◌, if◌then◌else◌,
  inl, inr, Option-cases,
}
use open_coroutine.Net.Operator.{
  Rings, Answer, took, failed, Operator, Round, kernel_takes, Next, goes, leaves, errs, make_room,
  clean, is_passing,
}

pub append_assoc : {E : Type 0} (xs ys zs : List E) → (xs ++ ys) ++ zs ≡ xs ++ (ys ++ zs)
append_assoc [] ys zs = refl
append_assoc (x ∷ xs) ys zs = ap (λ us. x ∷ us) (append_assoc xs ys zs)

module _ {Q E : Type 0} (𝓡 : Rings Q E) where
  -- All entries, in the order in which the kernel takes them.
  abbrev pub all : Operator Q E → List E
  all o = o.sent ++ (𝓡.items o.inner ++ o.backlog)

  pub kernel_takes-all : (n : ℕ) (o : Operator Q E) → all (kernel_takes 𝓡 n o) ≡ all o
  kernel_takes-all n o =
      let (taken, q) = 𝓡.take n o.inner in
      append_assoc o.sent taken (𝓡.items q ++ o.backlog)
      ∙ ap (λ (us : List E). o.sent ++ us)
          (sym (append_assoc taken (𝓡.items q) o.backlog)
            ∙ ap (λ (us : List E). us ++ o.backlog) (sym (𝓡.take-items n o.inner)))

  -- An entry that moves from the front of the backlog to the back of the queue.
  moved-all :
      (sqe : E) (rest : List E) (o : Operator Q E) (q : Q)
      → 𝓡.push sqe o.inner ≡ some q
      → all (record o { inner = q; backlog = rest }) ≡ all (record o { backlog = sqe ∷ rest })
  moved-all sqe rest o q e =
      ap (λ (us : List E). o.sent ++ us)
        (ap (λ (us : List E). us ++ rest) (𝓡.push-items sqe o.inner q e)
          ∙ append_assoc (𝓡.items o.inner) (sqe ∷ []) rest)

  -- The entries are those of `o`, in order, its backlog among them.
  abbrev Same : Operator Q E → Operator Q E → Type 0
  Same o o' = (all o' ≡ all o) × (o'.backlog ≡ o.backlog) × (o'.entering ≡ o.entering)

  abbrev Kept : Operator Q E → Next 𝓡 → Type 0
  Kept o (goes o') = Same o o'
  Kept o (leaves o') = Same o o'
  Kept o (errs o') = Same o o'

  if-Kept :
      (o : Operator Q E) (b : Bool) (x y : Next 𝓡)
      → Kept o x
      → Kept o y
      → Kept o (if b then x else y)
  if-Kept o true x y h g = h
  if-Kept o false x y h g = g

  answered-Kept :
      (o : Operator Q E) (x : Round) (a : Answer)
      → Kept o (elim a as (λ _. Next 𝓡) [
        | took n ↦ goes (kernel_takes 𝓡 x.synced (kernel_takes 𝓡 n o))
        | failed errno ↦ if is_passing errno then leaves o else errs o
      ])
  answered-Kept o x (took n) =
      (kernel_takes-all x.synced (kernel_takes 𝓡 n o) ∙ kernel_takes-all n o, refl, refl)
  answered-Kept o x (failed errno) =
      if-Kept o (is_passing errno) (leaves o) (errs o) (refl, refl, refl) (refl, refl, refl)

  make_room-Kept : (x : Round) (o : Operator Q E) → Kept o (make_room 𝓡 x o)
  make_room-Kept x o =
      if-Kept o (𝓡.is_full o.inner) _ (goes (kernel_takes 𝓡 x.synced o))
        (answered-Kept o x x.answer) (kernel_takes-all x.synced o, refl, refl)

  Next-cases :
      (r : Next 𝓡)
      → ((o : Operator Q E) × (r ≡ goes o))
        ⊎ (((o : Operator Q E) × (r ≡ leaves o)) ⊎ ((o : Operator Q E) × (r ≡ errs o)))
  Next-cases (goes o) = inl (o, refl)
  Next-cases (leaves o) = inr (inl (o, refl))
  Next-cases (errs o) = inr (inr (o, refl))

  -- The loop moves entries of the backlog and of the queue, and keeps their order.
  pub clean-all :
      (kernel : ℕ → Round) (i : ℕ) (backlog : List E) (o : Operator Q E)
      → let o' = (clean 𝓡 kernel i backlog o).0 in
        (all o' ≡ all (record o { backlog = backlog })) × (o'.entering ≡ o.entering)
  unfolding clean
  clean-all kernel i [] o =
      let start = record o { backlog = [] } in
      let kept = make_room-Kept (kernel i) start in
      elim (Next-cases (make_room 𝓡 (kernel i) start)) [
        | inl (o', e) ↦ let (t, b, n) = subst (Kept start) e kept in rw (e, clean) (t, n)
        | inr (inl (o', e)) ↦ let (t, b, n) = subst (Kept start) e kept in rw (e, clean) (t, n)
        | inr (inr (o', e)) ↦ let (t, b, n) = subst (Kept start) e kept in rw (e, clean) (t, n)
      ]
  clean-all kernel i (sqe ∷ rest) o =
      let start = record o { backlog = sqe ∷ rest } in
      let kept = make_room-Kept (kernel i) start in
      elim (Next-cases (make_room 𝓡 (kernel i) start)) [
        | inr (inl (o', e)) ↦ let (t, b, n) = subst (Kept start) e kept in rw (e, clean) (t, n)
        | inr (inr (o', e)) ↦ let (t, b, n) = subst (Kept start) e kept in rw (e, clean) (t, n)
        | inl (o', e) ↦
            let (t, b, n) = subst (Kept start) e kept in
            elim (Option-cases (𝓡.push sqe o'.inner)) [
              | inl f ↦ rw (e, f, clean) (t, n)
              | inr (q, f) ↦
                  let (u, m) = clean-all kernel (suc i) rest (record o' { inner = q }) in
                  let moved = moved-all sqe rest o' q f in
                  let held : all (record o' { backlog = sqe ∷ rest }) ≡ all o' =
                    ap (λ (bs : List E). all (record o' { backlog = bs })) (sym b) in
                  rw (e, f, clean) (u ∙ moved ∙ held ∙ t, m ∙ n)
            ]
      ]
