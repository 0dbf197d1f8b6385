-- ===== src/Suite/Accounts.antt =====
-- The unit tests of src/pool.rs.
use rust_adv_pop.Prelude.{
  ℕ, ◌≡◌, refl, Bool, true, false, not, ◌&&◌, Option, none, some, [], ◌∷◌, ◌==◌, length,
}
use rust_adv_pop.Text.{codes, text_eq}
use rust_adv_pop.Error.{auth_failed, Result, ok, err}
use rust_adv_pop.Transport
use rust_adv_pop.Transport.{send_command, read_line}
use rust_adv_pop.Client
use rust_adv_pop.Client.{Pop3Client, is_authenticated}
use rust_adv_pop.Builder
use rust_adv_pop.Pool.{
  AccountKey, new_key, key_eq, timed_out, user, Pop3PoolError, checkout_timeout, connection,
  unknown_account, from_run_error, has_broken, default_config, Pop3Pool, new, with_config,
  add_account, checkout, remove_account, accounts, lookup, without, keys,
}
use rust_adv_pop.Suite.{
  write, build_authenticated_test_client, result_of, ◌>>◌, assert_that, runs, all_pass, any_of,
  is_empty,
}

abbrev alice : AccountKey
alice = new_key (codes "mail.example.com") 110 (codes "alice")

account_key_eq_same : Bool
account_key_eq_same = key_eq alice (new_key (codes "mail.example.com") 110 (codes "alice"))

account_key_ne_different_host : Bool
account_key_ne_different_host =
    not (key_eq alice (new_key (codes "mail.other.com") 110 (codes "alice")))

account_key_ne_different_port : Bool
account_key_ne_different_port =
    not (key_eq alice (new_key (codes "mail.example.com") 995 (codes "alice")))

account_key_ne_different_username : Bool
account_key_ne_different_username =
    not (key_eq alice (new_key (codes "mail.example.com") 110 (codes "bob")))

is_checkout_timeout : Pop3PoolError → Bool
is_checkout_timeout checkout_timeout = true
is_checkout_timeout e = false

is_auth_failure : Pop3PoolError → Bool
is_auth_failure (connection (auth_failed message)) = true
is_auth_failure e = false

pool_error_from_timed_out : Bool
unfolding is_checkout_timeout
pool_error_from_timed_out = is_checkout_timeout (from_run_error timed_out)

pool_error_from_user : Bool
unfolding is_auth_failure
pool_error_from_user = is_auth_failure (from_run_error (user (auth_failed (codes "bad"))))

has_broken_returns_false_for_live_client : Bool
has_broken_returns_false_for_live_client =
    runs build_authenticated_test_client [] (assert_that (λ c. not (has_broken c)))

has_broken_returns_true_for_closed_client : Bool
has_broken_returns_true_for_closed_client =
    runs build_authenticated_test_client (write "NOOP" ∷ [])
      (do result_of Client.noop; assert_that Client.is_closed; assert_that has_broken)

authenticated_client_state_is_authenticated : Bool
authenticated_client_state_is_authenticated =
    runs build_authenticated_test_client [] (assert_that (λ c. is_authenticated (Client.state c)))

is_duration : ℕ → Option ℕ → Bool
is_duration n none = false
is_duration n (some k) = k == n

pool_config_default : Bool
unfolding is_duration
pool_config_default =
    default_config.connection_timeout == 30
    && is_duration 300 default_config.idle_timeout
    && is_duration 1800 default_config.max_lifetime

pool_new_has_no_accounts : Bool
pool_new_has_no_accounts = is_empty (accounts new)

abbrev user_key : AccountKey
user_key = new_key (codes "host") 110 (codes "user")

with_user : Pop3Pool → Pop3Pool
with_user =
    add_account user_key (Builder.with_port 110 (Builder.new (codes "host"))) (codes "user")
      (codes "pass")

pool_add_account_registers_key : Bool
unfolding with_user
pool_add_account_registers_key =
    length (accounts (with_user new)) == 1 && any_of (key_eq user_key) (accounts (with_user new))

pool_add_account_is_idempotent : Bool
unfolding with_user
pool_add_account_is_idempotent = length (accounts (with_user (with_user new))) == 1

abbrev three_accounts : Pop3Pool
three_accounts =
    add_account (new_key (codes "host3") 995 (codes "carol")) (Builder.new (codes "host3"))
      (codes "carol") (codes "pw")
      (add_account (new_key (codes "host2") 110 (codes "bob")) (Builder.new (codes "host2"))
        (codes "bob") (codes "pw")
        (add_account (new_key (codes "host1") 110 (codes "alice")) (Builder.new (codes "host1"))
          (codes "alice") (codes "pw") new))

pool_add_multiple_accounts : Bool
pool_add_multiple_accounts =
    length (accounts three_accounts) == 3
    && any_of (key_eq (new_key (codes "host1") 110 (codes "alice"))) (accounts three_accounts)
    && any_of (key_eq (new_key (codes "host2") 110 (codes "bob"))) (accounts three_accounts)
    && any_of (key_eq (new_key (codes "host3") 995 (codes "carol"))) (accounts three_accounts)

abbrev one_account : Pop3Pool
one_account = add_account user_key (Builder.new (codes "host")) (codes "user") (codes "pass") new

pool_remove_account_returns_true : Bool
pool_remove_account_returns_true = (remove_account user_key one_account).0

pool_remove_account_returns_false : Bool
pool_remove_account_returns_false = not (remove_account user_key new).0

pool_remove_account_deregisters : Bool
pool_remove_account_deregisters =
    not (any_of (key_eq user_key) (accounts (remove_account user_key one_account).1))
    && is_empty (accounts (remove_account user_key one_account).1)

is_unknown : Result Pop3PoolError (Unit {0}) → Bool
is_unknown (err (unknown_account key)) = true
is_unknown r = false

pool_checkout_unknown_account : Bool
unfolding is_unknown
pool_checkout_unknown_account = is_unknown (checkout (λ pool. ok tt) user_key new)

pool_with_config : Bool
pool_with_config = is_empty (
    accounts
      (with_config (record { connection_timeout = 10; idle_timeout = none; max_lifetime = none })))

accounts_pass :
    all_pass (
      account_key_eq_same ∷ account_key_ne_different_host ∷ account_key_ne_different_port
      ∷ account_key_ne_different_username ∷ pool_error_from_timed_out ∷ pool_error_from_user
      ∷ has_broken_returns_false_for_live_client ∷ has_broken_returns_true_for_closed_client
      ∷ authenticated_client_state_is_authenticated ∷ pool_config_default ∷ pool_new_has_no_accounts
      ∷ pool_add_account_registers_key ∷ pool_add_account_is_idempotent ∷ pool_add_multiple_accounts
      ∷ pool_remove_account_returns_true ∷ pool_remove_account_returns_false
      ∷ pool_remove_account_deregisters ∷ pool_checkout_unknown_account ∷ pool_with_config ∷ [])
    ≡ true
unfolding account_key_eq_same account_key_ne_different_host account_key_ne_different_port
    account_key_ne_different_username pool_error_from_timed_out pool_error_from_user
    has_broken_returns_false_for_live_client has_broken_returns_true_for_closed_client
    authenticated_client_state_is_authenticated pool_config_default pool_new_has_no_accounts
    pool_add_account_registers_key pool_add_account_is_idempotent pool_add_multiple_accounts
    pool_remove_account_returns_true pool_remove_account_returns_false
    pool_remove_account_deregisters pool_checkout_unknown_account pool_with_config
    is_checkout_timeout is_auth_failure is_duration with_user is_unknown new_key key_eq
    from_run_error has_broken new with_config add_account checkout remove_account accounts lookup
    without keys text_eq Client.noop Client.require_auth Client.send_and_check Client.is_closed
    Client.state Transport.is_closed send_command read_line
accounts_pass = refl
