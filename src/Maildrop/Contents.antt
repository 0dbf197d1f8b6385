-- ===== src/Maildrop/Contents.antt =====
-- What a maildrop whose letters fit the client shows of them.
use rust_adv_pop.Prelude.{
  ℕ, zero, suc, ◌+◌, ◌≤◌, ◌≡◌, subst, some, List, [], ◌∷◌, ◌==◌, ==_iff, Bool-cases, inl, inr,
  length, take, map, All, Lacks, arith,
}
use rust_adv_pop.Text.{Text, lf, max_u32}
use rust_adv_pop.Wire.{StatFits, ListFits, UidlFits}
use rust_adv_pop.Maildrop.{
  Letter, Maildrop, is_in, visible, find, contents, total, scan_entry, uid_entry, top_lines,
  stat_of, LetterFits, all_octets, Fits,
}

-- The number and the letter fit.
pub record EntryFits (p : ℕ × Letter) : Type 0 where
  pub number_fits : p.0 ≤ max_u32
  pub letter_fits : LetterFits p.1

visible-EntryFits :
    (deleted : List ℕ) (n : ℕ) (letters : List Letter)
    → n + length letters ≤ suc max_u32
    → All LetterFits letters
    → All EntryFits (visible deleted n letters)
unfolding visible
visible-EntryFits deleted n [] room h = tt
visible-EntryFits deleted n (l ∷ rest) room (fits, more) =
    let others = visible-EntryFits deleted (suc n) rest (omega arith) more in
    elim (Bool-cases (is_in n deleted)) [
      | inl gone ↦ rw gone others
      | inr here ↦ rw here (record { number_fits = omega arith; letter_fits = fits }, others)
    ]

length-visible :
    (deleted : List ℕ) (n : ℕ) (letters : List Letter)
    → length (visible deleted n letters) ≤ length letters
unfolding visible
length-visible deleted n [] = omega arith
length-visible deleted n (l ∷ rest) = elim (Bool-cases (is_in n deleted)) [
  | inl gone ↦ rw gone (omega (arith, length-visible deleted (suc n) rest))
  | inr here ↦ rw here (omega (arith, length-visible deleted (suc n) rest))
]

total-visible :
    (deleted : List ℕ) (n : ℕ) (letters : List Letter)
    → total (visible deleted n letters) ≤ all_octets letters
unfolding visible total all_octets
total-visible deleted n [] = omega arith
total-visible deleted n (l ∷ rest) = elim (Bool-cases (is_in n deleted)) [
  | inl gone ↦ rw gone (omega (arith, total-visible deleted (suc n) rest))
  | inr here ↦ rw here (omega (arith, total-visible deleted (suc n) rest))
]

pub contents-EntryFits : (m : Maildrop) → Fits m → All EntryFits (contents m)
contents-EntryFits m h =
    let room = h.count_fits in visible-EntryFits m.deleted 1 m.letters (omega arith) h.letters_fit

pub contents-StatFits : (m : Maildrop) → Fits m → StatFits (stat_of (contents m))
contents-StatFits m h =
    let count = h.count_fits in
    let octets = h.total_fits in
    record {
      count_fits = omega (arith, length-visible m.deleted 1 m.letters);
      size_fits = omega (arith, total-visible m.deleted 1 m.letters);
    }

pub scan-ListFits : (p : ℕ × Letter) → EntryFits p → ListFits (scan_entry p)
scan-ListFits (n, l) h = record { id_fits = h.number_fits; size_fits = h.letter_fits.octets_fit }

pub uid-UidlFits : (p : ℕ × Letter) → EntryFits p → UidlFits (uid_entry p)
uid-UidlFits (n, l) h = record {
  id_fits = h.number_fits;
  uid_full = h.letter_fits.uid_full;
  uid_solid = h.letter_fits.uid_solid;
}

pub All-map :
    {A B : Type 0} (f : A → B) (P : A → Type 0) (Q : B → Type 0)
    → ((a : A) → P a → Q (f a))
    → (l : List A) → All P l
    → All Q (map f l)
All-map f P Q k [] h = tt
All-map f P Q k (a ∷ l) (pa, h) = (k a pa, All-map f P Q k l h)

pub find-EntryFits :
    (id : ℕ) (l : Letter) (entries : List (ℕ × Letter))
    → All EntryFits entries
    → find id entries ≡ some l
    → EntryFits (id, l)
unfolding find
find-EntryFits id l [] h e = cc
find-EntryFits id l ((n, k) ∷ rest) (fits, more) e = elim (Bool-cases (n == id)) [
  | inl same ↦ found ((==_iff n id).0 same) (rw same at e)
  | inr other ↦ find-EntryFits id l rest more (rw other at e)
]
  where
    found : n ≡ id → some k ≡ some l → EntryFits (id, l)
    found p q =
        let p' : k ≡ l = cc in
        subst (λ (x : ℕ). EntryFits (x, l)) p (subst (λ (x : Letter). EntryFits (n, x)) p' fits)

take-Lacks : (n : ℕ) (lines : List Text) → All (Lacks lf) lines → All (Lacks lf) (take n lines)
take-Lacks zero lines h = tt
take-Lacks (suc n) [] h = tt
take-Lacks (suc n) (l ∷ rest) (clean, h) = (clean, take-Lacks n rest h)

pub top_lines-Lacks :
    (n : ℕ) (lines : List Text) → All (Lacks lf) lines → All (Lacks lf) (top_lines n lines)
unfolding top_lines
top_lines-Lacks n [] h = tt
top_lines-Lacks n ([] ∷ rest) (clean, h) = (tt, take-Lacks n rest h)
top_lines-Lacks n ((c ∷ line) ∷ rest) (clean, h) = (clean, top_lines-Lacks n rest h)
