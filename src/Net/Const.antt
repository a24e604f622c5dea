-- ===== src/Net/Const.antt =====
-- net/const.go. The life cycle that services and sessions share.
pub data LifeState : Type 0 where
  state_init state_started state_closed : LifeState

pub LifeState-discrete : Discrete LifeState
LifeState-discrete = hlevel
