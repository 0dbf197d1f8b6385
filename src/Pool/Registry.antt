-- ===== src/Pool/Registry.antt =====
-- The registry of src/pool.rs: checkouts behind additions and removals, and its invariant.
use rust_adv_pop.Prelude.{
  ◌≡◌, ◌↔◌, refl, true, false, Option, none, some, List, [], ◌∷◌, arith, if◌then◌else◌, Bool-cases,
  inl, inr,
}
use rust_adv_pop.Text.{Text, text_eq_iff}
use rust_adv_pop.Error.{Result, err, map_err}
use rust_adv_pop.Builder.{Pop3ClientBuilder}
use rust_adv_pop.Pool.{
  AccountKey, key_eq, RunError, unknown_account, from_run_error, AccountPool, Pop3Pool, lookup,
  without, present, add_account, checkout, remove_account,
}

key_eq_iff : (a b : AccountKey) → (key_eq a b ≡ true) ↔ (a ≡ b)
unfolding key_eq
key_eq_iff a b = ground (arith, text_eq_iff a.host b.host, text_eq_iff a.username b.username)

lookup-without :
    {V : Type 0} (k j : AccountKey) (m : List (AccountKey × V))
    → lookup j (without k m) ≡ (if key_eq k j then none else lookup j m)
unfolding lookup without
lookup-without k j [] = ground arith
lookup-without k j ((i, v) ∷ m) =
    ground (arith, lookup-without k j m, key_eq_iff i k, key_eq_iff i j, key_eq_iff k j)

-- Behind a removal the account is unknown, and every other account is checked out as before.
pub checkout-remove_account :
    {C : Type 0} (get_owned : AccountPool → Result RunError C) (k j : AccountKey) (p : Pop3Pool)
    → checkout get_owned j (remove_account k p).1
      ≡ (if key_eq k j then err (unknown_account j) else checkout get_owned j p)
unfolding checkout remove_account
checkout-remove_account get_owned k j p = ground (arith, lookup-without k j p.pools)

-- Adding an account that is there changes no checkout. Adding a new one makes its checkouts those of
-- a pool of at most one connection, which is tested at checkout and not retried, over the manager
-- with the given builder and credentials; every other account is checked out as before.
pub checkout-add_account :
    {C : Type 0} (get_owned : AccountPool → Result RunError C) (k j : AccountKey)
    (b : Pop3ClientBuilder) (username password : Text) (p : Pop3Pool)
    → checkout get_owned j (add_account k b username password p) ≡ (
        if present (lookup k p.pools)
        then checkout get_owned j p
        else if key_eq k j
        then map_err from_run_error (
            get_owned (record {
              max_size = 1;
              min_idle = some 0;
              test_on_check_out = true;
              retry_connection = false;
              config = p.config;
              manager = record { builder = b; username = username; password = password };
            }))
        else checkout get_owned j p)
unfolding checkout add_account lookup
checkout-add_account get_owned k j b username password p = ground (arith, key_eq_iff k j)

-- The operations that change the registry.
pub data Change : Type 0 where
  add : AccountKey → Pop3ClientBuilder → Text → Text → Change
  remove : AccountKey → Change

abbrev pub change : Change → Pop3Pool → Pop3Pool
change (add k b u w) p = add_account k b u w p
change (remove k) p = (remove_account k p).1

abbrev pub changes : List Change → Pop3Pool → Pop3Pool
changes [] p = p
changes (c ∷ rest) p = changes rest (change c p)

-- No other entry has the key of an entry, and each pool holds one connection at most.
abbrev pub IsExclusive : List (AccountKey × AccountPool) → Type 0
IsExclusive [] = Unit
IsExclusive ((k, v) ∷ m) = (v.max_size ≡ 1) × (lookup k m ≡ none) × IsExclusive m

without-IsExclusive :
    (k : AccountKey) (m : List (AccountKey × AccountPool))
    → IsExclusive m
    → IsExclusive (without k m)
unfolding without
without-IsExclusive k [] h = tt
without-IsExclusive k ((j, v) ∷ m) (one, alone, rest) = elim (Bool-cases (key_eq j k)) [
  | inl e ↦ rw e (without-IsExclusive k m rest)
  | inr e ↦ rw e (one, ground (arith, lookup-without k j m), without-IsExclusive k m rest)
]

add-IsExclusive :
    (k : AccountKey) (b : Pop3ClientBuilder) (u w : Text) (p : Pop3Pool)
    → IsExclusive p.pools
    → IsExclusive (add_account k b u w p).pools
unfolding add_account
add-IsExclusive k b u w p h = add_to (lookup k p.pools) refl
  where
    add_to :
        (o : Option AccountPool) → lookup k p.pools ≡ o → IsExclusive (add_account k b u w p).pools
    add_to (some v) e = rw (e, add_account) h
    add_to none e = rw (e, add_account) (refl, e, h)

-- Whatever accounts are added to and removed from a registry in which no key is registered twice and
-- the pool of each account holds at most one connection, it stays such a registry.
pub changes-IsExclusive :
    (cs : List Change) (p : Pop3Pool) → IsExclusive p.pools → IsExclusive (changes cs p).pools
unfolding remove_account
changes-IsExclusive [] p h = h
changes-IsExclusive (add k b u w ∷ rest) p h =
    changes-IsExclusive rest (add_account k b u w p) (add-IsExclusive k b u w p h)
changes-IsExclusive (remove k ∷ rest) p h =
    changes-IsExclusive rest (remove_account k p).1 (without-IsExclusive k p.pools h)
