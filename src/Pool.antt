-- ===== src/Pool.antt =====
-- src/pool.rs: `Pop3Pool`, a registry of one connection pool for each account. The pool of the bb8
-- crate is a parameter; what is modelled is its configuration, its manager and the registry.
pub mod Registry
pub mod Manager
pub mod Late
use rust_adv_pop.Prelude.{
  ℕ, Bool, true, false, ◌&&◌, ◌||◌, Option, none, some, List, [], ◌∷◌, ◌++◌, ◌==◌, if◌then◌else◌,
}
use rust_adv_pop.Text.{Text, cr, lf, contains, text_eq, decimal}
use rust_adv_pop.Error.{Pop3Error, invalid_input, Result, PopResult, ok, err, map_err, ◌>>=◌}
use rust_adv_pop.Exec.{Exec, continue}
use rust_adv_pop.Client
use rust_adv_pop.Client.{Pop3Client, is_authenticated}
use rust_adv_pop.Builder
use rust_adv_pop.Builder.{Pop3ClientBuilder, Network}

pub record AccountKey : Type 0 where
  pub host : Text
  pub port : ℕ
  pub username : Text

unfoldable pub new_key : Text → ℕ → Text → AccountKey
new_key host port username = record { host = host; port = port; username = username }

-- `Display`: the user name is left out.
unfoldable pub show_key : AccountKey → Text
show_key k = k.host ++ b':' ∷ decimal k.port

unfoldable pub key_eq : AccountKey → AccountKey → Bool
key_eq a b = text_eq a.host b.host && a.port == b.port && text_eq a.username b.username

pub record Pop3ConnectionManager : Type 0 where
  pub builder : Pop3ClientBuilder
  pub username : Text
  pub password : Text

abbrev pub new_manager : Pop3ClientBuilder → Text → Text → Pop3ConnectionManager
new_manager builder username password = record {
  builder = builder;
  username = username;
  password = password;
}

unfoldable pub has_line_break : Text → Bool
has_line_break s = contains cr s || contains lf s

abbrev logged_in : PopResult (Unit {0}) × Pop3Client → PopResult Pop3Client
logged_in (ok done, c) = ok c
logged_in (err e, c) = err e

log_in_unless : Text → Text → Pop3Client → PopResult Pop3Client
log_in_unless username password c =
    if is_authenticated c.state then ok c else logged_in (Client.login username password c)

-- `ManageConnection::connect`.
unfoldable pub manager_connect :
    (Text → Text) → Pop3ConnectionManager → Network → PopResult Pop3Client
unfolding has_line_break log_in_unless
manager_connect md5 m network =
    if has_line_break m.username || has_line_break m.password
    then err invalid_input
    else do c ← (Builder.connect md5 m.builder network).0; log_in_unless m.username m.password c

unfoldable pub is_valid : Exec Pop3Client (Unit {0})
is_valid = Client.noop

unfoldable pub has_broken : Pop3Client → Bool
has_broken c = c.transport.is_closed

pub data RunError : Type 0 where
  timed_out : RunError
  user : Pop3Error → RunError

pub data Pop3PoolError : Type 0 where
  checkout_timeout : Pop3PoolError
  connection : Pop3Error → Pop3PoolError
  unknown_account : AccountKey → Pop3PoolError

unfoldable pub from_run_error : RunError → Pop3PoolError
from_run_error timed_out = checkout_timeout
from_run_error (user e) = connection e

pub record PoolConfig : Type 0 where
  pub connection_timeout : ℕ
  pub idle_timeout : Option ℕ
  pub max_lifetime : Option ℕ

abbrev pub default_config : PoolConfig
default_config = record {
  connection_timeout = 30;
  idle_timeout = some 300;
  max_lifetime = some 1800;
}

-- A bb8 pool as it is built: its settings and its manager.
pub record AccountPool : Type 0 where
  pub max_size : ℕ
  pub min_idle : Option ℕ
  pub test_on_check_out : Bool
  pub retry_connection : Bool
  pub config : PoolConfig
  pub manager : Pop3ConnectionManager

-- The map of the registry, behind its lock.
pub record Pop3Pool : Type 0 where
  pub pools : List (AccountKey × AccountPool)
  pub config : PoolConfig

unfoldable pub with_config : PoolConfig → Pop3Pool
with_config config = record { pools = []; config = config }

unfoldable pub new : Pop3Pool
unfolding with_config
new = with_config default_config

module _ {V : Type 0} where
  unfoldable pub lookup : AccountKey → List (AccountKey × V) → Option V
  lookup k [] = none
  lookup k ((j, v) ∷ m) = if key_eq j k then some v else lookup k m

  unfoldable pub without : AccountKey → List (AccountKey × V) → List (AccountKey × V)
  without k [] = []
  without k ((j, v) ∷ m) = let rest = without k m in if key_eq j k then rest else (j, v) ∷ rest

  unfoldable pub keys : List (AccountKey × V) → List AccountKey
  keys [] = []
  keys ((j, v) ∷ m) = j ∷ keys m

abbrev pub present : {V : Type 0} → Option V → Bool
present none = false
present (some v) = true

account_pool : PoolConfig → Pop3ConnectionManager → AccountPool
account_pool config manager = record {
  max_size = 1;
  min_idle = some 0;
  test_on_check_out = true;
  retry_connection = false;
  config = config;
  manager = manager;
}

unfoldable pub add_account : AccountKey → Pop3ClientBuilder → Text → Text → Pop3Pool → Pop3Pool
unfolding account_pool
add_account key builder username password p = if present (lookup key p.pools) then p else record p {
  pools = (key, account_pool p.config (new_manager builder username password)) ∷ p.pools;
}

-- `get_owned` is bb8's, of the pool of the account.
unfoldable pub checkout :
    {C : Type 0}
    → (AccountPool → Result RunError C)
    → AccountKey
    → Pop3Pool
    → Result Pop3PoolError C
unfolding from_run_error
checkout get_owned key p = elim (lookup key p.pools) [
  | none ↦ err (unknown_account key)
  | some pool ↦ map_err from_run_error (get_owned pool)
]

unfoldable pub remove_account : AccountKey → Pop3Pool → Bool × Pop3Pool
remove_account key p = (present (lookup key p.pools), record p { pools = without key p.pools })

unfoldable pub accounts : Pop3Pool → List AccountKey
accounts p = keys p.pools
