-- ===== src/TableCache/Futures.antt =====
-- `Future<Tuple>` (src/TableCache.cpp): the answer of storage that a `get` waits for.
use telldb.Base.{Bool, true}
use telldb.Errors.{Error, done, raise, Method, range_error}
use telldb.TableCache.State.{World, Future, ready, remote}
use telldb.TableCache.Ops.{add_tuple}

-- What `waitForResult`, `error` and `get` of the response say.
pub data Response (T : Type 0) : Type 0 where
  found : T → Bool → Response T
  not_found : Response T
  failed : Error → Response T

-- `done`: `arrived` says whether the response has come.
unfoldable pub is_done : Bool → Future → Bool
is_done arrived (ready key p) = true
is_done arrived (remote key) = arrived

module _ {T K B : Type 0} where
  -- `get`: the future has its result from then on.
  unfoldable pub future_get : Response T → Future → Method (World T K B) Future
  unfolding add_tuple
  future_get response (ready key p) w = done w (ready key p)
  future_get not_found (remote key) w = raise w range_error
  future_get (failed e) (remote key) w = raise w e
  future_get (found t newest) (remote key) w = elim (add_tuple key t newest w) [
    | done x p ↦ done x (ready key p)
    | raise x e ↦ raise x e
  ]
