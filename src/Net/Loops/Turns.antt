-- ===== src/Net/Loops/Turns.antt =====
-- core/src/net/mod.rs: the event loops take turns.
use open_coroutine.Prelude.{
  ℕ, zero, suc, ◌+◌, ◌%◌, ◌<◌, ◌≡◌, Option, some, List, [], ◌∷◌, ◌++◌, length, get_elem?, map,
  arith, refl, sym, ◌∙◌, ap, length-append,
}
use mathlib.Core.List.{append_assoc, append-nil, map-append}
use native.Mathlib.Nat.{mod-add-mod, mod-eq_of_lt, mod_self}
use open_coroutine.Net.Loops.{EventLoops, turns}

mod-suc : (i n r : ℕ) → i % n ≡ r → r + 1 < n → (i + 1) % n ≡ r + 1
mod-suc i n r h lt = sym (mod-add-mod i n 1) ∙ ap (λ (k : ℕ). (k + 1) % n) h ∙ mod-eq_of_lt lt

mod-wraps : (i n a b : ℕ) → i % n ≡ a → a + b ≡ n → (i + b) % n ≡ 0
mod-wraps i n a b h e =
    sym (mod-add-mod i n b) ∙ ap (λ (k : ℕ). (k + b) % n) h ∙ ap (λ (k : ℕ). k % n) e ∙ mod_self n

module _ {L : Type 0} where
  get_elem?-append :
      (pre : List L) (x : L) (post : List L) → get_elem? (pre ++ x ∷ post) (length pre) ≡ some x
  get_elem?-append [] x post = refl
  get_elem?-append (y ∷ pre) x post = get_elem?-append pre x post

  turns-suc :
      (n i : ℕ) (ls : List L)
      → i + 1 < 18446744073709551616
      → turns (suc n) (record { index = i; loops = ls })
        ≡ get_elem? ls (i % length ls) ∷ turns n (record { index = i + 1; loops = ls })
  unfolding turns
  turns-suc n i ls h =
      let same : (i + 1) % 18446744073709551616 ≡ i + 1 = omega arith in
      ap (λ (k : ℕ). get_elem? ls (i % length ls) ∷ turns n (record { index = k; loops = ls })) same

  turns-add :
      (m n i : ℕ) (ls : List L)
      → i + m < 18446744073709551616
      → turns (m + n) (record { index = i; loops = ls })
        ≡ turns m (record { index = i; loops = ls })
          ++ turns n (record { index = i + m; loops = ls })
  unfolding turns
  turns-add zero n i ls h =
      let a : 0 + n ≡ n = omega arith in let b : i + 0 ≡ i = omega arith in rw (a, b)
  turns-add (suc m) n i ls h =
      let a : suc m + n ≡ suc (m + n) = omega arith in
      let b : i + suc m ≡ i + 1 + m = omega arith in
      rw (a, b)
        (turns-suc (m + n) i ls (omega arith)
          ∙ ap (λ (us : List (Option L)). get_elem? ls (i % length ls) ∷ us)
              (turns-add m n (i + 1) ls (omega arith))
          ∙ ap (λ (us : List (Option L)). us ++ turns n (record { index = i + 1 + m; loops = ls }))
              (sym (turns-suc m i ls (omega arith))))

  -- From the loop behind `pre` on.
  turns-segment :
      (xs pre post ls : List L) (i : ℕ)
      → ls ≡ pre ++ (xs ++ post)
      → i + length xs < 18446744073709551616
      → i % length ls ≡ length pre
      → turns (length xs) (record { index = i; loops = ls }) ≡ map some xs
  unfolding turns
  turns-segment [] pre post ls i e small r = refl
  turns-segment (x ∷ []) pre post ls i e small r =
      rw (r, e) (ap (λ (o : Option L). o ∷ []) (get_elem?-append pre x post))
  turns-segment (x ∷ y ∷ xs) pre post ls i e small r =
      let long : length ls ≡ length pre + length (x ∷ y ∷ (xs ++ post)) =
        ap length e ∙ length-append pre (x ∷ y ∷ (xs ++ post)) in
      let first : get_elem? ls (i % length ls) ≡ some x =
        rw (r, e) (get_elem?-append pre x (y ∷ (xs ++ post))) in
      turns-suc (length (y ∷ xs)) i ls (omega arith)
      ∙ ap (λ (o : Option L). o ∷ turns (length (y ∷ xs)) (record { index = i + 1; loops = ls }))
          first
      ∙ ap (λ (us : List (Option L)). some x ∷ us)
          (turns-segment (y ∷ xs) (pre ++ x ∷ []) post ls (i + 1)
            (e ∙ sym (append_assoc pre (x ∷ []) (y ∷ (xs ++ post)))) (omega arith)
            (mod-suc i (length ls) (length pre) r (omega (arith, long))
              ∙ sym (length-append pre (x ∷ []))))

  -- The event loops take turns: as many calls of `round_robin` in a row as there are loops choose each
  -- loop once, in order from the one that the index stands at, then from the first; where the index does
  -- not wrap meanwhile.
  pub turns-append :
      (xs ys : List L) (i : ℕ)
      → i % length (xs ++ ys) ≡ length xs
      → i + length (xs ++ ys) < 18446744073709551616
      → turns (length (xs ++ ys)) (record { index = i; loops = xs ++ ys }) ≡ map some (ys ++ xs)
  turns-append xs ys i r small =
      let n = length-append xs ys in
      let total : length (xs ++ ys) ≡ length ys + length xs = omega (arith, n) in
      let ls = xs ++ ys in
      let start : EventLoops L = record { index = i; loops = ls } in
      ap (λ (k : ℕ). turns k start) total
      ∙ turns-add (length ys) (length xs) i ls (omega (arith, n))
      ∙ ap
          (λ (us : List (Option L)).
            us ++ turns (length xs) (record { index = i + length ys; loops = ls }))
          (turns-segment ys xs [] ls i (ap (λ (us : List L). xs ++ us) (sym (append-nil ys)))
            (omega (arith, n)) r)
      ∙ ap (λ (us : List (Option L)). map some ys ++ us)
          (turns-segment xs [] ys ls (i + length ys) refl (omega (arith, n))
            (mod-wraps i (length ls) (length xs) (length ys) r (sym n)))
      ∙ sym (map-append some ys xs)
