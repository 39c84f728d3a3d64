-- ===== src/UserData/Breadcrumbs.antt =====
-- The breadcrumbs of KFCrashUserData.c: an array that is written round and round. The mutex lets one
-- operation run at a time.
pub mod Recent
use kfcrash.Prelude.{
  ℕ, ◌+◌, ◌-◌, ◌%◌, Option, none, some, List, [], ltb, leb, if◌then◌else◌, Bytes, get_elem?, set,
  take, replicate,
}
use kfcrash.Prelude.Int.{ℤ, pos, negsuc}

-- `KFCRASH_MAX_BREADCRUMBS` and `KFCRASH_BREADCRUMB_MAX_MESSAGE_LENGTH`
abbrev pub max_breadcrumbs : ℕ
max_breadcrumbs = 100

abbrev pub max_message_length : ℕ
max_message_length = 256

-- `KFCBreadcrumbEntry`, its message without the terminator.
pub record Breadcrumb : Type 0 where
  pub timestamp : ℕ
  pub message : Bytes

abbrev pub no_breadcrumb : Breadcrumb
no_breadcrumb = record { timestamp = 0; message = [] }

-- `KFCBreadcrumbStore`
pub record Breadcrumbs : Type 0 where
  pub entries : List Breadcrumb
  pub write_index : ℕ
  pub count : ℕ

-- What is kept of a message at a time in microseconds.
abbrev pub kept_of : Bytes → ℕ → Breadcrumb
kept_of message now = record { timestamp = now; message = take (max_message_length - 1) message }

-- A call of `kfcrash_addBreadcrumb`, with NULL or a message, at a time.
unfoldable pub add_breadcrumb : Option Bytes → ℕ → Breadcrumbs → Breadcrumbs
add_breadcrumb none now store = store
add_breadcrumb (some message) now store = record {
  entries = set store.entries store.write_index (kept_of message now);
  write_index = (store.write_index + 1) % max_breadcrumbs;
  count = if ltb store.count max_breadcrumbs then store.count + 1 else store.count;
}

unfoldable pub clear_breadcrumbs : Breadcrumbs → Breadcrumbs
clear_breadcrumbs store = record {
  entries = replicate max_breadcrumbs no_breadcrumb;
  write_index = 0;
  count = 0;
}

abbrev real_index : ℕ → Breadcrumbs → ℕ
real_index index store =
    if ltb store.count max_breadcrumbs then index else (store.write_index + index) % max_breadcrumbs

-- `none` for `false`.
unfoldable pub get_breadcrumb_at : ℤ → Breadcrumbs → Option Breadcrumb
get_breadcrumb_at (negsuc n) store = none
get_breadcrumb_at (pos index) store =
    if leb store.count index then none else get_elem? store.entries (real_index index store)
