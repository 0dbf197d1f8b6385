-- ===== src/Client/Batch/Windows.antt =====
-- The windows of a pipelined batch of src/client.rs.
use rust_adv_pop.Prelude.{
  ℕ, zero, suc, ◌≤◌, ◌≡◌, refl, ap, ◌∙◌, List, [], ◌∷◌, ◌++◌, arith, length, take, drop,
  take-append-drop, length-drop,
}
use rust_adv_pop.Client.Batch.{pipeline_window, chunks_within, chunks}

abbrev pub flatten {ℓ} : {A : Type ℓ} → List (List A) → List A
flatten [] = []
flatten (xs ∷ rest) = xs ++ flatten rest

flatten-chunks_within {ℓ} :
    {A : Type ℓ} (fuel n : ℕ) (xs : List A)
    → length xs ≤ fuel
    → flatten (chunks_within fuel (suc n) xs) ≡ xs
unfolding chunks_within
flatten-chunks_within zero n [] h = refl
flatten-chunks_within zero n (x ∷ xs) h = absurd (omega arith)
flatten-chunks_within (suc fuel) n [] h = refl
flatten-chunks_within (suc fuel) n (x ∷ xs) h =
    ap (λ l. x ∷ (take n xs ++ l))
      (flatten-chunks_within fuel n (drop n xs) (omega (arith, length-drop n xs)))
    ∙ ap (λ l. x ∷ l) (take-append-drop n xs)

pub flatten-chunks : (ids : List ℕ) → flatten (chunks pipeline_window ids) ≡ ids
unfolding chunks
flatten-chunks ids = flatten-chunks_within (length ids) 3 ids (omega arith)
