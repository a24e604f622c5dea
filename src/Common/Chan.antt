-- ===== src/Common/Chan.antt =====
-- Signal channels (`chan struct{}`) that are closed at most once: a second close panics.
use mathlib.Core.Bool.{Bool, true, false}

pub data Chan : Type 0 where
  opened closed panicked : Chan

abbrev pub close_chan : Chan → Chan
close_chan opened = closed
close_chan closed = panicked
close_chan panicked = panicked

abbrev pub is_closed_chan : Chan → Bool
is_closed_chan closed = true
is_closed_chan _ = false
