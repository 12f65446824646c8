-- ===== src/Pool/Session.antt =====
-- `get_sync_session` of core/db/session.py from its `yield` on, with the classifier of errors of
-- core/db/pool/base.py, over the pool. `get_async_session` takes the same course over the
-- asynchronous pool. The text of an exception is its type's name and its message.
pub mod Ends
use salesdata_api.Base.{
  ℕ, List, [], ◌∷◌, ◌++◌, Option, none, some, Bool, true, false, ◌||◌, ◌&&◌, not, ◌==◌,
  if◌then◌else◌,
}
use salesdata_api.Sql.Chars.{codes, lower}
use salesdata_api.Pool.Sync.{Pool, release}

-- `_CONNECTION_LEVEL_SIGNALS`
abbrev pub signals : List (List ℕ)
signals =
    codes "connection is closed"
    ∷ codes "connection already closed"
    ∷ codes "connection closed"
    ∷ codes "connection reset"
    ∷ codes "broken pipe"
    ∷ codes "not connected"
    ∷ codes "no connection to the server"
    ∷ codes "server closed the connection"
    ∷ codes "could not connect"
    ∷ codes "connection refused"
    ∷ codes "eof occurred"
    ∷ codes "ssl error"
    ∷ codes "socket"
    ∷ []

unfoldable pub is_prefix : List ℕ → List ℕ → Bool
is_prefix [] s = true
is_prefix (c ∷ w) [] = false
is_prefix (c ∷ w) (d ∷ s) = c == d && is_prefix w s

-- `word in s`
unfoldable pub is_in : List ℕ → List ℕ → Bool
unfolding is_prefix
is_in w [] = is_prefix w []
is_in w (d ∷ s) = is_prefix w (d ∷ s) || is_in w s

unfoldable pub any_in : List (List ℕ) → List ℕ → Bool
unfolding is_in
any_in [] s = false
any_in (w ∷ ws) s = is_in w s || any_in ws s

unfoldable pub is_connection_level_error : List ℕ → Bool
unfolding any_in
is_connection_level_error exc = any_in signals (lower exc)

-- how the body of the `with` ends
pub data Body : Type 0 where
  completes : Body
  raises : List ℕ → Body

-- whether the wrapper's `rollback` raises, where the connection's own does or does not:
-- `_safe_rollback` catches whatever it is
unfoldable pub rollback_raises : Bool → Bool
rollback_raises fails = false

unfoldable pub broken_connection : Body → Bool → Bool
unfolding is_connection_level_error rollback_raises
broken_connection completes fails = false
broken_connection (raises exc) fails =
    if is_connection_level_error exc then true else rollback_raises fails

-- the pool after the session, and whether a waiting thread is notified
unfoldable pub end_session : Pool → ℕ → Body → Bool → Pool × Bool
unfolding broken_connection release
end_session p conn body fails = release p conn (broken_connection body fails)
