-- ===== src/Net/Ref.antt =====
-- What the records of the package point to.
use gcluster.Common.{ℕ}

-- A net.Conn, by a number of its own.
abbrev pub Conn : Type 0
Conn = ℕ

-- A value of type sessionImpl: the service's sessionLocal, or a pointer to a session.
pub data SessionRef : Type 0 where
  local_session : SessionRef
  remote_session : ℕ → SessionRef
